-- ===== src/MsConf/Push.antt =====
-- Where an address goes in `ms_lists_`.
use tgproxy.Common.{
  ℕ, zero, suc, ◌≤◌, ◌<◌, ◌≡◌, refl, true, false, List, [], ◌∷◌, ◌++◌, Text, length, length-append,
  ◌==◌, done, abort, arith,
}
use tgproxy.MsConf.{push_at, add_addr}

push_at_last :
    (front : List (List Text)) (row : List Text) (addr : Text)
    → push_at (front ++ row ∷ []) (length front) addr ≡ done (front ++ (row ++ addr ∷ []) ∷ [])
unfolding push_at
push_at_last [] row addr = refl
push_at_last (r ∷ front) row addr = rw (push_at_last front row addr)

push_at_past :
    (lists : List (List Text)) (i : ℕ) (addr : Text)
    → length lists ≤ i
    → push_at lists i addr ≡ abort
unfolding push_at
push_at_past [] i addr h = refl
push_at_past (r ∷ lists) zero addr h = absurd (omega arith)
push_at_past (r ∷ lists) (suc i) addr h = rw (push_at_past lists i addr (omega arith))

eq_refl : (n : ℕ) → (n == n) ≡ true
eq_refl n = ground arith

-- The first address of a row opens it, and a later one goes to it.
pub add_addr_first :
    (lists : List (List Text)) (addr : Text)
    → add_addr lists (length lists) addr ≡ done (lists ++ (addr ∷ []) ∷ [])
unfolding add_addr
add_addr_first lists addr = rw (eq_refl (length lists)) (push_at_last lists [] addr)

pub add_addr_later :
    (front : List (List Text)) (row : List Text) (addr : Text)
    → add_addr (front ++ row ∷ []) (length front) addr ≡ done (front ++ (row ++ addr ∷ []) ∷ [])
unfolding add_addr
add_addr_later front row addr =
    let longer : (length (front ++ row ∷ []) == length front) ≡ false =
      ground (arith, length-append front (row ∷ [])) in
    rw longer (push_at_last front row addr)

pub add_addr_past :
    (lists : List (List Text)) (i : ℕ) (addr : Text)
    → length lists < i
    → add_addr lists i addr ≡ abort
unfolding add_addr
add_addr_past lists i addr h =
    let shorter : (length lists == i) ≡ false = ground arith in
    rw shorter (push_at_past lists i addr (omega arith))
