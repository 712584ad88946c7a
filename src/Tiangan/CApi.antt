-- ===== src/Tiangan/CApi.antt =====
-- tiangan/c_api.cc: the path of a model in a caller's buffer, and a slicer behind a pointer.
use tgproxy.Common.{
  List, none, some, leb, take, Run, done, abort, assert, ◌>>◌, ℕ, zero, suc, ◌≤◌, ◌<◌, ◌≡◌, ◌≢◌,
  refl, ap, false, [], ◌∷◌, Option, Text, length, c_str, ◌==◌, if◌then◌else◌, All, arith,
}
use tgproxy.Common.Int.{ℤ, pos, negsuc}
use tgproxy.Slicer.{KeyRange, new_slicer, positions}
use tgproxy.Tiangan.{get_mpath}

-- `memset` of the buffer and `strncpy` into it: the bytes before a NUL, as many as fit, and NULs.
abbrev pub strncpy : ℕ → Text → Text
strncpy zero s = []
strncpy (suc n) [] = 0 ∷ strncpy n []
strncpy (suc n) (c ∷ s) = if c == 0 then 0 ∷ strncpy n [] else c ∷ strncpy n s

-- `tiangan_get_mpath(buffer, buffer_len, ...)`: the buffer.
unfoldable pub tiangan_get_mpath : ℕ → Text → Text → ℤ → ℤ → Option Text → Text
tiangan_get_mpath buffer_len model_name model_version partition timestamp delim =
    strncpy buffer_len (get_mpath model_name model_version partition timestamp delim)

-- `tiangan_range_slicer_new(range)`: the object that the pointer leads to.
unfoldable pub tiangan_range_slicer_new : ℤ → Option (List KeyRange)
tiangan_range_slicer_new range = some (new_slicer range)

-- `tiangan_range_slicer_slice(slicer, arr, len, pos)`: what is written at `pos`.
unfoldable pub tiangan_range_slicer_slice : Option (List KeyRange) → List ℕ → ℤ → Run (List ℕ)
tiangan_range_slicer_slice none arr len = abort
tiangan_range_slicer_slice (some ranges) arr (negsuc n) = abort
tiangan_range_slicer_slice (some ranges) arr (pos n) = do
  assert (leb n (length arr))
  done (positions (take n arr) ranges)

-- `tiangan_range_slicer_destroy(slicer)`: a null pointer is deleted without effect.
unfoldable pub tiangan_range_slicer_destroy : Option (List KeyRange) → Option (List KeyRange)
tiangan_range_slicer_destroy slicer = none

strncpy-fits : (n : ℕ) (s : Text) → length s < n → All (λ c. c ≢ 0) s → c_str (strncpy n s) ≡ s
strncpy-fits zero s h a = absurd (omega arith)
strncpy-fits (suc n) [] h a = refl
strncpy-fits (suc n) (c ∷ s) h a =
    let other : (c == 0) ≡ false = ground (arith, a.0) in
    rw (other, other) (ap (◌∷◌ c) (strncpy-fits n s (omega arith) a.1))

strncpy-full :
    (n : ℕ) (s : Text) → n ≤ length s → All (λ c. c ≢ 0) s → All (λ c. c ≢ 0) (strncpy n s)
strncpy-full zero s h a = tt
strncpy-full (suc n) [] h a = absurd (omega arith)
strncpy-full (suc n) (c ∷ s) h a =
    let other : (c == 0) ≡ false = ground (arith, a.0) in
    rw other (a.0, strncpy-full n s (omega arith) a.1)

-- A path without NUL that is shorter than the buffer is what a C string reads of the buffer; one
-- that is as long or longer leaves a buffer without any NUL.
pub tiangan_get_mpath-c_str :
    (buffer_len : ℕ) (name version : Text) (partition timestamp : ℤ) (delim : Option Text)
    → let mpath = get_mpath name version partition timestamp delim in
      let buffer = tiangan_get_mpath buffer_len name version partition timestamp delim in
      All (λ c. c ≢ 0) mpath
      → (length mpath < buffer_len → c_str buffer ≡ mpath)
        × (buffer_len ≤ length mpath → All (λ c. c ≢ 0) buffer)
unfolding tiangan_get_mpath
tiangan_get_mpath-c_str buffer_len name version partition timestamp delim a =
    let mpath = get_mpath name version partition timestamp delim in
    (λ h. strncpy-fits buffer_len mpath h a, λ h. strncpy-full buffer_len mpath h a)
