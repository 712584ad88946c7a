-- ===== src/MsConf/Rows.antt =====
-- What `parse_ms_conf` makes of the arrays of addresses.
use tgproxy.Common.{
  ℕ, ◌+◌, ◌<◌, ◌≡◌, refl, ap, ◌∙◌, Bool, true, false, List, [], ◌∷◌, ◌++◌, append_assoc, append-nil,
  some, Text, codes, length, length-append, if◌then◌else◌, Run, done, abort, ◌>>=◌, arith,
}
use tgproxy.Json.{Rapidjson, find, text_of, array_of}
use tgproxy.MsConf.{
  MsConf, no_conf, add_addr, addr_loop, row_loop, parse_ms_conf, name_of, version_of, ms_list_of,
}
use tgproxy.MsConf.Push.{add_addr_first, add_addr_later, add_addr_past}

all_empty : List (List Text) → Bool
all_empty [] = true
all_empty ([] ∷ rows) = all_empty rows
all_empty ((a ∷ row) ∷ rows) = false

-- The rows up to the first empty one; undefined if a row behind that is not empty.
pub trimmed : List (List Text) → Run (List (List Text))
unfolding all_empty
trimmed [] = done []
trimmed ([] ∷ rows) = if all_empty rows then done [] else abort
trimmed ((a ∷ row) ∷ rows) = do t ← trimmed rows; done ((a ∷ row) ∷ t)

module _ (j : Rapidjson) where
  open j use {Value, view, member}

  -- An array's entries are texts, none of them empty.
  pub data Texts : List Value → List Text → Type 0 where
    no_entry : Texts [] []
    entry :
        (v : Value) (vs : List Value) (c : ℕ) (addr : Text) (addrs : List Text)
        → text_of j (view v) ≡ some (c ∷ addr)
        → Texts vs addrs
        → Texts (v ∷ vs) ((c ∷ addr) ∷ addrs)

  -- An array's entries are arrays of such texts.
  pub data Rows : List Value → List (List Text) → Type 0 where
    no_row : Rows [] []
    row_of :
        (v : Value) (vs entries : List Value) (row : List Text) (rows : List (List Text))
        → array_of j (view v) ≡ some entries
        → Texts entries row
        → Rows vs rows
        → Rows (v ∷ vs) (row ∷ rows)

  addr_loop-cons :
      (i : ℕ) (v : Value) (vs : List Value) (c : ℕ) (addr : Text) (lists lists' : List (List Text))
      → text_of j (view v) ≡ some (c ∷ addr)
      → add_addr lists i (c ∷ addr) ≡ done lists'
      → addr_loop j i (v ∷ vs) lists ≡ addr_loop j i vs lists'
  unfolding addr_loop
  addr_loop-cons i v vs c addr lists lists' e f = rw (e, f, addr_loop)

  addr_loop_later :
      {vs : List Value} {addrs : List Text} (front : List (List Text)) (row : List Text)
      → Texts vs addrs
      → addr_loop j (length front) vs (front ++ row ∷ [])
        ≡ done (front ++ (row ++ addrs) ∷ [], true)
  addr_loop_later front row no_entry = unfold addr_loop in rw append-nil
  addr_loop_later front row (entry v vs c addr addrs e t) =
      addr_loop-cons (length front) v vs c addr _ _ e (add_addr_later front row (c ∷ addr))
      ∙ addr_loop_later front (row ++ (c ∷ addr) ∷ []) t
      ∙ ap (λ (r : List Text). done (front ++ r ∷ [], true))
          (append_assoc row ((c ∷ addr) ∷ []) addrs)

  addr_loop_first :
      (v : Value) (vs : List Value) (c : ℕ) (addr : Text) (addrs : List Text)
      (lists : List (List Text))
      → text_of j (view v) ≡ some (c ∷ addr)
      → Texts vs addrs
      → addr_loop j (length lists) (v ∷ vs) lists ≡ done (lists ++ ((c ∷ addr) ∷ addrs) ∷ [], true)
  addr_loop_first v vs c addr addrs lists e t =
      addr_loop-cons (length lists) v vs c addr lists _ e (add_addr_first lists (c ∷ addr))
      ∙ addr_loop_later lists ((c ∷ addr) ∷ []) t

  addr_loop_past :
      (i : ℕ) (v : Value) (vs : List Value) (c : ℕ) (addr : Text) (lists : List (List Text))
      → text_of j (view v) ≡ some (c ∷ addr)
      → length lists < i
      → addr_loop j i (v ∷ vs) lists ≡ abort
  unfolding addr_loop
  addr_loop_past i v vs c addr lists e h = rw (e, add_addr_past lists i (c ∷ addr) h, addr_loop)

  row_loop-cons :
      (i : ℕ) (v : Value) (vs entries : List Value) (lists lists' : List (List Text))
      → array_of j (view v) ≡ some entries
      → addr_loop j i entries lists ≡ done (lists', true)
      → row_loop j i (v ∷ vs) lists ≡ row_loop j (i + 1) vs lists'
  unfolding row_loop
  row_loop-cons i v vs entries lists lists' e f = rw (e, f, row_loop)

  row_loop_abort :
      (i : ℕ) (v : Value) (vs entries : List Value) (lists : List (List Text))
      → array_of j (view v) ≡ some entries
      → addr_loop j i entries lists ≡ abort
      → row_loop j i (v ∷ vs) lists ≡ abort
  unfolding row_loop
  row_loop_abort i v vs entries lists e f = rw (e, f, row_loop)

  addr_loop-nil : (i : ℕ) (lists : List (List Text)) → addr_loop j i [] lists ≡ done (lists, true)
  unfolding addr_loop
  addr_loop-nil i lists = refl

  -- Behind an empty row.
  row_loop_past :
      {vs : List Value} {rows : List (List Text)} (i : ℕ) (lists : List (List Text))
      → length lists < i
      → Rows vs rows
      → row_loop j i vs lists ≡ (if all_empty rows then done (lists, true) else abort)
  unfolding all_empty
  row_loop_past i lists h no_row = unfold row_loop in refl
  row_loop_past i lists h (row_of v vs entries _ rows e no_entry r) =
      row_loop-cons i v vs [] lists lists e (addr_loop-nil i lists)
      ∙ row_loop_past (i + 1) lists (omega arith) r
  row_loop_past i lists h (row_of v vs entries _ rows e (entry u us c addr addrs f t) r) =
      row_loop_abort i v vs _ lists e (addr_loop_past i u us c addr lists f h)

  abbrev with_rows : List (List Text) → Run (List (List Text)) → Run (List (List Text) × Bool)
  with_rows lists r = do t ← r; done (lists ++ t, true)

  with_rows_if :
      (lists : List (List Text)) (b : Bool)
      → (if b then done (lists, true) else abort) ≡ with_rows lists (if b then done [] else abort)
  with_rows_if lists true = rw append-nil
  with_rows_if lists false = refl

  with_rows-cons :
      (lists : List (List Text)) (row : List Text) (r : Run (List (List Text)))
      → with_rows (lists ++ row ∷ []) r ≡ with_rows lists (do t ← r; done (row ∷ t))
  with_rows-cons lists row (done t) =
      ap (λ (ls : List (List Text)). done (ls, true)) (append_assoc lists (row ∷ []) t)
  with_rows-cons lists row abort = refl

  row_loop-trimmed :
      {vs : List Value} {rows : List (List Text)} (lists : List (List Text))
      → Rows vs rows
      → row_loop j (length lists) vs lists ≡ with_rows lists (trimmed rows)
  unfolding trimmed
  row_loop-trimmed lists no_row = unfold row_loop in rw append-nil
  row_loop-trimmed lists (row_of v vs entries _ rows e no_entry r) =
      row_loop-cons (length lists) v vs [] lists lists e (addr_loop-nil (length lists) lists)
      ∙ row_loop_past (length lists + 1) lists (omega arith) r
      ∙ with_rows_if lists (all_empty rows)
  row_loop-trimmed lists (row_of v vs entries _ rows e (entry u us c addr addrs f t) r) =
      let row = (c ∷ addr) ∷ addrs in
      row_loop-cons (length lists) v vs (u ∷ us) lists _ e
        (addr_loop_first u us c addr addrs lists f t)
      ∙ ap (λ (n : ℕ). row_loop j n vs (lists ++ row ∷ []))
          (omega (arith, length-append lists (row ∷ [])))
      ∙ row_loop-trimmed (lists ++ row ∷ []) r
      ∙ with_rows-cons lists row (trimmed rows)

  -- A member that is looked up in an object.
  abbrev pub Has : Value → Text → Value → Type 0
  Has v name m = find j v name ≡ done (some m)

  pub conf_with : Text → Text → Run (List (List Text)) → Run (MsConf × Bool)
  conf_with name version r = do
    t ← r
    done (record { name = name; version = version; ms_lists = t }, true)

  with_rows_conf :
      (name version : Text) (r : Run (List (List Text)))
      → ((with_rows [] r) >>= λ p.
          done (record { name = name; version = version; ms_lists = p.0 }, p.1))
        ≡ conf_with name version r
  unfolding conf_with
  with_rows_conf name version (done t) = refl
  with_rows_conf name version abort = refl

  -- For an object with a text under "name" and under "version" and, under "ms_list", arrays of texts
  -- that are not empty: `parse_ms_conf` takes the name, the version and the rows up to the first
  -- empty one, and where a row that is not empty stands behind an empty one, it writes past the end of
  -- `ms_lists_`.
  pub parse_ms_conf-trimmed :
      (v n ver l : Value) (name version : Text) (arrays : List Value) (rows : List (List Text))
      → Has v (codes "name") n
      → text_of j (view n) ≡ some name
      → Has v (codes "version") ver
      → text_of j (view ver) ≡ some version
      → Has v (codes "ms_list") l
      → array_of j (view l) ≡ some arrays
      → Rows arrays rows
      → parse_ms_conf j v no_conf ≡ conf_with name version (trimmed rows)
  unfolding parse_ms_conf name_of version_of ms_list_of
  parse_ms_conf-trimmed v n ver l name version arrays rows a b c d e f r =
      rw (a, b, c, d, e, f, row_loop-trimmed [] r) (with_rows_conf name version (trimmed rows))
