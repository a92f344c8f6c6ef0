-- ===== src/Lpack/Bounds.antt =====
-- What is left of a buffer behind an offset, as the readers of src/lua_lpack.c count it, in and outside
-- the range in which the count is right.
use luaw.Prelude.{refl, Bool, ℕ, ◌+◌, ◌-◌, ◌^◌, ◌≤◌, ◌<◌, ◌≡◌, List, length, take, drop, arith}
use luaw.Prelude.Int.{pos, negsuc}
use luaw.Lpack.{Tag, ok, fault, Floats, code}
use luaw.Lpack.Read.{remaining, window, read_case, read_number, read_string}

-- Where the offset lies in the buffer, `remaining` is what is left.
pub remaining-le : (len k : ℕ) → k ≤ len → len < 2 ^ 31 → remaining len (pos k) ≡ pos (len - k)
unfolding remaining
remaining-le len k h m = ground arith

pub remaining-lt : (len k : ℕ) → len < k → k ≤ 2 ^ 31 → remaining len (pos k) ≡ negsuc (k - len - 1)
unfolding remaining
remaining-lt len k h m = ground arith

pub window-le :
    (buff : List ℕ) (k n : ℕ)
    → k + n ≤ length buff
    → window buff (pos k) n ≡ ok (take n (drop k buff))
unfolding window
window-le buff k n h = ground arith

module _ (fp : Floats) where
  -- An offset behind the buffer by a multiple of 2 ^ 32, or before it, is taken for one in the buffer: in
  -- every buffer of less than 2 ^ 30 bytes, and for each `j` below its length, the readers read outside the
  -- buffer at the offsets 2 ^ 32 + j and -(j + 1): `read_number` for a UINT_8, and `read_string` for one
  -- byte. They raise no error there.
  pub read_number_wraps :
      (big : Bool) (buff : List ℕ) (j : ℕ)
      → length buff < 2 ^ 30
      → j < length buff
      → (read_number fp big (pos (code Tag.uint_8)) buff (pos (2 ^ 32 + j)) ≡ fault)
        × (read_number fp big (pos (code Tag.uint_8)) buff (negsuc j) ≡ fault)
        × (read_string (pos 1) buff (pos (2 ^ 32 + j)) ≡ fault)
        × (read_string (pos 1) buff (negsuc j) ≡ fault)
  unfolding read_number read_string
  read_number_wraps big buff j small inside =
      let high : remaining (length buff) (pos (2 ^ 32 + j)) ≡ pos (length buff - j) =
        unfold remaining in ground arith in
      let low : remaining (length buff) (negsuc j) ≡ pos (length buff + j + 1) =
        unfold remaining in ground arith in
      let past : window buff (pos (2 ^ 32 + j)) 1 ≡ fault = unfold window in ground arith in
      let before : window buff (negsuc j) 1 ≡ fault = unfold window in refl in
      (
        rw high (unfold read_case in ground (arith, past)),
        rw low (unfold read_case in ground (arith, before)),
        rw high (ground (arith, past)),
        rw low (ground (arith, before)),
      )
