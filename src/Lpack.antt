-- ===== src/Lpack.antt =====
-- src/lua_lpack.h and src/lua_lpack.c: the luapack format. This file has the type tags, C's integers
-- in memory and the numbers of Lua; the two directions of the format stand in child modules.
pub mod Read
pub mod Write
pub mod Bounds
pub mod Format
pub mod Entries
pub mod Encode
pub mod RoundTrip
pub mod Strings
pub mod NoFault
pub mod Types
pub mod Ranges
pub mod Hex
use luaw.Prelude.{
  ℕ, zero, suc, ◌+◌, ◌-◌, ◌*◌, ◌/◌, ◌%◌, ◌^◌, ◌≤◌, ◌<◌, ◌≡◌, Bool, true, false, List, [], ◌∷◌,
  Option, none, some, if◌then◌else◌, ltb, String,
}
use luaw.Prelude.Int.{ℤ, pos, negsuc}

-- `type_tag`.
pub data Tag : Type 0 where
  type_marker map_start array_start dict_start record_end : Tag
  nil bool_true bool_false : Tag
  uint_8 dict_entry uint_16 big_dict_entry uint_32 int_8 int_16 int_32 int_64 float double : Tag
  string big_string huge_string : Tag

-- The number of a tag in the enumeration.
abbrev pub code : Tag → ℕ
code type_marker = 0
code map_start = 1
code array_start = 2
code dict_start = 3
code record_end = 4
code nil = 5
code bool_true = 6
code bool_false = 7
code uint_8 = 8
code dict_entry = 9
code uint_16 = 10
code big_dict_entry = 11
code uint_32 = 12
code int_8 = 13
code int_16 = 14
code int_32 = 15
code int_64 = 16
code float = 17
code double = 18
code string = 19
code big_string = 20
code huge_string = 21

abbrev nth_tag : ℕ → List Tag → Option Tag
nth_tag n [] = none
nth_tag zero (t ∷ ts) = some t
nth_tag (suc n) (t ∷ ts) = nth_tag n ts

abbrev pub all_tags : List Tag
all_tags =
    type_marker ∷ map_start ∷ array_start ∷ dict_start ∷ record_end ∷ nil ∷ bool_true ∷ bool_false
    ∷ uint_8 ∷ dict_entry ∷ uint_16 ∷ big_dict_entry ∷ uint_32 ∷ int_8 ∷ int_16 ∷ int_32 ∷ int_64
    ∷ float ∷ double ∷ string ∷ big_string ∷ huge_string ∷ []

-- The case of a `switch` over an int that is a tag, if there is one.
abbrev pub tag_of : ℤ → Option Tag
tag_of (pos n) = nth_tag n all_tags
tag_of (negsuc n) = none

-- A run ends with a result, with a Lua error, or with an access outside a buffer.
pub data Result {ℓ} (A : Type ℓ) : Type ℓ where
  ok : A → Result A
  error : String → Result A
  fault : Result A

infixl 5 ◌>>=◌
abbrev pub ◌>>=◌ {ℓ κ} : {A : Type ℓ} {B : Type κ} → Result A → (A → Result B) → Result B
ok a >>= f = f a
error m >>= f = error m
fault >>= f = fault

-- Conversion to an unsigned type of modulus `suc m`, and the signed value of a bit pattern below
-- `2 * half`.
abbrev pub wrap : ℕ → ℤ → ℕ
wrap m (pos n) = n % m
wrap m (negsuc n) = m - 1 - n % m

abbrev pub signed : ℕ → ℕ → ℤ
signed half u = if ltb u half then pos u else negsuc (2 * half - 1 - u)

-- A `lua_Integer` as an `int`.
abbrev pub narrow : ℤ → ℤ
narrow i = signed (2 ^ 31) (wrap (2 ^ 32) i)

-- The bytes of an unsigned value in memory, on a machine that is big endian or not. Lowest first:
abbrev pub low_first : ℕ → ℕ → List ℕ
low_first zero n = []
low_first (suc k) n = (n % 256) ∷ low_first k (n / 256)

abbrev pub of_low_first : List ℕ → ℕ
of_low_first [] = 0
of_low_first (b ∷ bs) = b + 256 * of_low_first bs

-- `be16`, `be32` and `be64`: from `in` to `out`, for as many bytes as each one moves.
unfoldable pub be16 : Bool → List ℕ → List ℕ
be16 big (a ∷ b ∷ _) = if big then a ∷ b ∷ [] else b ∷ a ∷ []
be16 big _ = []

unfoldable pub be32 : Bool → List ℕ → List ℕ
be32 big (a ∷ b ∷ c ∷ d ∷ _) = if big then a ∷ b ∷ c ∷ d ∷ [] else d ∷ c ∷ b ∷ a ∷ []
be32 big _ = []

unfoldable pub be64 : Bool → List ℕ → List ℕ
be64 big (a ∷ b ∷ c ∷ d ∷ e ∷ f ∷ g ∷ h ∷ _) =
    if big then a ∷ b ∷ c ∷ d ∷ e ∷ f ∷ g ∷ h ∷ [] else h ∷ g ∷ f ∷ e ∷ d ∷ c ∷ b ∷ a ∷ []
be64 big _ = []

-- The numbers of Lua and C's floating point, which are no part of the repository: doubles, the
-- conversions of `lua_tointeger` and of a cast to `int64_t`, the bit patterns of floats and doubles,
-- and Lua's conversions from and to strings. Up to 2 ^ 53 a double stands for an integer exactly.
pub record Floats : Type 1 where
  pub Double : Type 0
  pub of_int : ℤ → Double
  pub to_integer : Double → ℤ
  pub to_int64 : Double → ℤ
  pub is_nonzero : Double → Bool
  pub float_bits : Double → ℕ
  pub of_float_bits : ℕ → Double
  pub double_bits : Double → ℕ
  pub of_double_bits : ℕ → Double
  pub number_of_string : List ℕ → Option Double
  pub string_of_number : Double → List ℕ
  pub to_integer-of_pos : (n : ℕ) → n ≤ 2 ^ 53 → to_integer (of_int (pos n)) ≡ pos n
  pub to_integer-of_negsuc : (n : ℕ) → n < 2 ^ 53 → to_integer (of_int (negsuc n)) ≡ negsuc n
