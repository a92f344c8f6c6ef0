-- ===== src/Examples/Packing.antt =====
-- The luapack format of src/lua_lpack.c.
use luaw.Prelude.{
  ◌≡◌, true, false, List, [], ◌∷◌, ◌++◌, ◌≢◌, some, replicate, arith, ◌<◌, ◌↔◌, ◌^◌, refl, ℕ,
  if◌then◌else◌, ltb,
}
use luaw.Prelude.Int.{ℤ, pos, negsuc}
use luaw.Lpack.{Tag, ok, fault, error}
use luaw.Lpack.Read.{read_number, read_string}
use luaw.Lpack.Write.{serialize_write_Q, Item, number, other, fetch_next_as_integer}
use luaw.Lpack.Bounds.{read_number_wraps}
use luaw.Lpack.Format.{read_number-tagged}
use luaw.Lpack.Entries.{Entry, mark, int, str, AreEntries}
use luaw.Lpack.Encode.{queue, serialize_write_Q-encode, uint_32_overflows}
use luaw.Lpack.RoundTrip.{serialize_write_Q-read_number}
use luaw.Lpack.Types.{define_lapck_types, Between}
use luaw.Lpack.Ranges.{define_lapck_types-read_number}
use luaw.Lpack.Hex.{to_hex, to_hex-overflows, CountsDigits}
use luaw.Lpack.NoFault.{serialize_write_Q-no_fault}
use luaw.Lpack.Strings.{read_string-body}
use luaw.Examples.World.{toy_floats}

-- `{1000, "hi"}` as an array.
abbrev entries : List Entry
entries =
    mark Tag.array_start
    ∷ int Tag.uint_16 (pos 1000)
    ∷ str Tag.string (104 ∷ 105 ∷ [])
    ∷ mark Tag.record_end
    ∷ []

entries-AreEntries : AreEntries entries
entries-AreEntries = ground arith

serialize_write_Q-encode_example :
    serialize_write_Q toy_floats false (some (queue toy_floats false entries)) 9 true
    ≡ ok (2 ∷ 10 ∷ 3 ∷ 232 ∷ 19 ∷ 2 ∷ 104 ∷ 105 ∷ 4 ∷ [])
serialize_write_Q-encode_example =
    serialize_write_Q-encode toy_floats false entries 9 entries-AreEntries (omega arith)
      (omega arith) (omega arith)

read_number-tagged_example :
    read_number toy_floats false (pos 10) (2 ∷ 10 ∷ 3 ∷ 232 ∷ []) (pos 2) ≡ ok (2, pos 1000)
read_number-tagged_example =
    read_number-tagged toy_floats false (pos 10) (2 ∷ 10 ∷ 3 ∷ 232 ∷ []) 2 (omega arith)
      (omega arith)

-- An INT_32 between two other entries.
serialize_write_Q-read_number_example :
    (out : List ℕ) × (serialize_write_Q toy_floats true
        (some (
          queue toy_floats true
            (mark Tag.array_start ∷ int Tag.int_32 (negsuc 1) ∷ mark Tag.record_end ∷ [])))
        9
        true
      ≡ ok out)
    × (read_number toy_floats true (pos 15) out (pos 2) ≡ ok (4, negsuc 1))
serialize_write_Q-read_number_example =
    serialize_write_Q-read_number toy_floats true Tag.int_32 (negsuc 1) (mark Tag.array_start ∷ [])
      (mark Tag.record_end ∷ []) 9 (omega arith) (refl, tt) (refl, tt) (omega arith) (omega arith)
      (omega arith)

-- 61 nils, where 65 bytes are allocated, and then a UINT_32.
abbrev nils : List Entry
nils = replicate 61 (mark Tag.nil)

nils-AreEntries : AreEntries nils
nils-AreEntries = ground arith

uint_32_overflows_example :
    serialize_write_Q toy_floats false
      (some (queue toy_floats false (nils ++ int Tag.uint_32 (pos 7) ∷ [])))
      1
      true
    ≡ fault
uint_32_overflows_example =
    uint_32_overflows toy_floats false nils 1 7 nils-AreEntries (omega arith) (omega arith)
      (omega arith) (omega arith) (omega arith)

-- 200 does not fit an INT_8.
define_lapck_types-read_number_example :
    (out : List ℕ) × (serialize_write_Q toy_floats false
        (some (queue toy_floats false (int Tag.int_8 (pos 200) ∷ [])))
        2
        true
      ≡ ok out)
    × (Between (define_lapck_types Tag.int_8).min_of (define_lapck_types Tag.int_8).max_of (pos 200)
        ↔ (read_number toy_floats false (pos 13) out (pos 1)
            ≡ ok ((define_lapck_types Tag.int_8).size_of, pos 200)))
define_lapck_types-read_number_example =
    define_lapck_types-read_number toy_floats false Tag.int_8 (pos 200) 2 refl (omega arith)
      (omega arith) (omega arith)

-- The right number of digits, all of them 0.
abbrev toy_hex : ℕ → List ℕ
toy_hex n = if ltb n 65536 then 48 ∷ 48 ∷ [] else 48 ∷ 48 ∷ 48 ∷ 48 ∷ 48 ∷ []

toy_hex-CountsDigits : CountsDigits toy_hex
toy_hex-CountsDigits n = (λ h. ground arith, λ h. ground arith)

to_hex-overflows_example :
    (255 < 65536 → to_hex toy_hex (pos 255) ≡ ok (48 ∷ 48 ∷ []))
    × (65536 < 255
        → 255 < 2 ^ 31
        → to_hex toy_hex (pos 255)
          ≡ error "toHex called with input %d, which is larger than acceptable limit")
    × (to_hex toy_hex (pos 65536) ≡ fault)
    × (to_hex toy_hex (negsuc 0) ≡ fault)
to_hex-overflows_example = to_hex-overflows toy_hex 255 0 toy_hex-CountsDigits (omega arith)

-- A marker that is no type, and one with a value that is no number.
abbrev malformed : List (Item ℤ)
malformed = number (pos 8) ∷ other ∷ number (pos 99) ∷ []

serialize_write_Q-no_fault_example :
    serialize_write_Q toy_floats false (some malformed) 1 true ≢ fault
unfolding fetch_next_as_integer
serialize_write_Q-no_fault_example =
    serialize_write_Q-no_fault toy_floats false malformed 1 true (omega arith) refl

read_string-body_example :
    (read_number toy_floats true (pos 20) (7 ∷ 0 ∷ 2 ∷ 104 ∷ 105 ∷ 4 ∷ []) (pos 1) ≡ ok (2, pos 2))
    × (read_string (pos 2) (7 ∷ 0 ∷ 2 ∷ 104 ∷ 105 ∷ 4 ∷ []) (pos 3) ≡ ok (104 ∷ 105 ∷ []))
read_string-body_example =
    read_string-body toy_floats true Tag.big_string (7 ∷ []) (104 ∷ 105 ∷ []) (4 ∷ []) (omega arith)
      (omega arith)

-- One byte, read at 2 ^ 32 and at -1.
read_number_wraps_example :
    (read_number toy_floats true (pos 8) (7 ∷ []) (pos 0x1_0000_0000) ≡ fault)
    × (read_number toy_floats true (pos 8) (7 ∷ []) (negsuc 0) ≡ fault)
    × (read_string (pos 1) (7 ∷ []) (pos 0x1_0000_0000) ≡ fault)
    × (read_string (pos 1) (7 ∷ []) (negsuc 0) ≡ fault)
read_number_wraps_example = read_number_wraps toy_floats true (7 ∷ []) 0 (omega arith) (omega arith)
