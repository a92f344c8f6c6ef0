-- ===== src/Lpack/Read.antt =====
-- src/lua_lpack.c: `read_number` and `read_string`.
use luaw.Prelude.{
  ℕ, zero, suc, ◌+◌, ◌-◌, ◌%◌, ◌^◌, Bool, true, false, List, [], Option, none, some, if◌then◌else◌,
  ltb, leb, length, take, drop,
}
use mathlib.Core.List.{reverse}
use luaw.Prelude.Int.{ℤ, pos, negsuc}
use luaw.Lpack.{
  Tag, Result, ok, error, fault, ◌>>=◌, wrap, signed, of_low_first, be16, be32, be64, Floats,
  tag_of, narrow,
}

-- `int remaining = len - offset`: a difference modulo 2 ^ 64, narrowed to 32 bits. The offset is a
-- `lua_Integer` that was converted to `size_t`.
unfoldable pub remaining : ℕ → ℤ → ℤ
remaining len offset = signed (2 ^ 31) ((len + 2 ^ 64 - wrap (2 ^ 64) offset) % 2 ^ 64 % 2 ^ 32)

-- `n` bytes at `buff + offset`; reading outside the buffer is a fault.
unfoldable pub window : List ℕ → ℤ → ℕ → Result (List ℕ)
window buff (pos offset) n =
    if leb (offset + n) (length buff) then ok (take n (drop offset buff)) else fault
window buff (negsuc k) zero = ok []
window buff (negsuc k) (suc n) = fault

-- `remaining < n`.
abbrev pub short_of : ℤ → ℕ → Bool
short_of (pos r) n = ltb r n
short_of (negsuc r) n = true

abbrev pub is_negative : ℤ → Bool
is_negative (pos n) = false
is_negative (negsuc n) = true

-- The bytes that a big-endian or little-endian machine has for an unsigned value, read back.
abbrev pub of_host : Bool → List ℕ → ℕ
of_host big bs = of_low_first (if big then reverse bs else bs)

module _ (fp : Floats) (big : Bool) where
  open fp use {Double, of_int, of_float_bits, of_double_bits}

  -- `n` bytes, if there are so many, as `value` makes a number of them.
  abbrev pub fixed : List ℕ → ℤ → ℕ → (List ℕ → Double) → Result (ℕ × Double)
  fixed buff offset n value =
      if short_of (remaining (length buff) offset) n
      then ok (0, of_int (pos 0))
      else (window buff offset n >>= λ bs. ok (n, value bs))

  unfoldable pub read_case : Tag → List ℕ → ℤ → Result (ℕ × Double)
  read_case Tag.type_marker b o = fixed b o 1 (λ bs. of_int (pos (of_low_first bs)))
  read_case Tag.uint_8 b o = fixed b o 1 (λ bs. of_int (pos (of_low_first bs)))
  read_case Tag.string b o = fixed b o 1 (λ bs. of_int (pos (of_low_first bs)))
  read_case Tag.dict_entry b o = fixed b o 1 (λ bs. of_int (pos (of_low_first bs)))
  read_case Tag.uint_16 b o = fixed b o 2 (λ bs. of_int (pos (of_host big (be16 big bs))))
  read_case Tag.big_string b o = fixed b o 2 (λ bs. of_int (pos (of_host big (be16 big bs))))
  read_case Tag.big_dict_entry b o = fixed b o 2 (λ bs. of_int (pos (of_host big (be16 big bs))))
  read_case Tag.uint_32 b o = fixed b o 4 (λ bs. of_int (pos (of_host big (be32 big bs))))
  read_case Tag.huge_string b o = fixed b o 4 (λ bs. of_int (pos (of_host big (be32 big bs))))
  read_case Tag.int_8 b o = fixed b o 1 (λ bs. of_int (signed (2 ^ 7) (of_low_first bs)))
  read_case Tag.int_16 b o =
      fixed b o 2 (λ bs. of_int (signed (2 ^ 15) (of_host big (be16 big bs))))
  read_case Tag.int_32 b o =
      fixed b o 4 (λ bs. of_int (signed (2 ^ 31) (of_host big (be32 big bs))))
  read_case Tag.int_64 b o =
      fixed b o 8 (λ bs. of_int (signed (2 ^ 63) (of_host big (be64 big bs))))
  read_case Tag.float b o = fixed b o 4 (λ bs. of_float_bits (of_host big (be32 big bs)))
  read_case Tag.double b o = fixed b o 8 (λ bs. of_double_bits (of_host big (be64 big bs)))
  read_case _ b o = error "Invalid marker %d specified"

  -- The `switch`; `none` is its default.
  abbrev pub switch : Option Tag → List ℕ → ℤ → Result (ℕ × Double)
  switch none buff offset = error "Invalid marker %d specified"
  switch (some tag) buff offset = read_case tag buff offset

  -- The number of bytes read and the number; 0 bytes where the buffer has too few.
  unfoldable pub read_number : ℤ → List ℕ → ℤ → Result (ℕ × Double)
  read_number num_type buff offset =
      if is_negative (remaining (length buff) offset)
      then error "Buffer underflow while reading number"
      else switch (tag_of (narrow num_type)) buff offset

-- At most `desired` bytes: all that remain, if they are fewer. A negative length becomes a `size_t`
-- that no buffer has.
abbrev pub take_string : ℤ → List ℕ → ℤ → ℤ → Result (List ℕ)
take_string desired buff offset (negsuc r) = error "Buffer underflow while reading string"
take_string (pos d) buff offset (pos r) = window buff offset (if leb d r then d else r)
take_string (negsuc d) buff offset (pos r) = fault

unfoldable pub read_string : ℤ → List ℕ → ℤ → Result (List ℕ)
read_string desired buff offset = take_string desired buff offset (remaining (length buff) offset)
