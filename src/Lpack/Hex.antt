-- ===== src/Lpack/Hex.antt =====
-- src/lua_lpack.c: `to_hex`.
use luaw.Prelude.{ℕ, ◌+◌, ◌-◌, ◌^◌, ◌≤◌, ◌<◌, ◌≡◌, List, if◌then◌else◌, ltb, length, arith}
use luaw.Prelude.Int.{ℤ, pos, negsuc}
use luaw.Lpack.{Result, ok, error, fault, narrow}

-- `format_hex` is what `sprintf` writes for "%x" and an unsigned value, without the closing 0.
module _ (format_hex : ℕ → List ℕ) where
  -- Writing to `char hex[5]`.
  abbrev pub in_hex : List ℕ → Result (List ℕ)
  in_hex s = if ltb 5 (length s + 1) then fault else ok s

  -- A negative int is printed as the unsigned value of its 32 bits.
  abbrev pub int_to_hex : ℤ → Result (List ℕ)
  int_to_hex (pos n) =
      if ltb 65536 n
      then error "toHex called with input %d, which is larger than acceptable limit"
      else in_hex (format_hex n)
  int_to_hex (negsuc k) = in_hex (format_hex (2 ^ 32 - 1 - k))

  -- The argument is narrowed to an int.
  unfoldable pub to_hex : ℤ → Result (List ℕ)
  to_hex i = int_to_hex (narrow i)

-- A value has at most four hexadecimal digits exactly if it is below 65536.
abbrev pub CountsDigits : (ℕ → List ℕ) → Type 0
CountsDigits format_hex =
    (n : ℕ) → (n < 65536 → length (format_hex n) ≤ 4) × (65536 ≤ n → 4 < length (format_hex n))

-- `to_hex` gives the digits of a value below 65536 and refuses an int above it, but for 65536 and for
-- every negative int it writes outside its buffer.
pub to_hex-overflows :
    (format_hex : ℕ → List ℕ) (n k : ℕ)
    → CountsDigits format_hex
    → k < 2 ^ 31
    → (n < 65536 → to_hex format_hex (pos n) ≡ ok (format_hex n))
      × (65536 < n
          → n < 2 ^ 31
          → to_hex format_hex (pos n)
            ≡ error "toHex called with input %d, which is larger than acceptable limit")
      × (to_hex format_hex (pos 65536) ≡ fault)
      × (to_hex format_hex (negsuc k) ≡ fault)
unfolding to_hex
to_hex-overflows format_hex n k c h = (
  λ b. ground (arith, (c n).0 b),
  λ b b'. ground arith,
  ground (arith, (c 65536).1 (omega arith)),
  ground (arith, (c (2 ^ 32 - 1 - k)).1 (omega arith)),
)
