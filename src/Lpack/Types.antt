-- ===== src/Lpack/Types.antt =====
-- src/lua_lpack.c: the table of types that `define_lapck_types` gives to Lua.
use luaw.Prelude.{ℕ, ◌-◌, ◌^◌, ◌≤◌, ◌≡◌, ◌↔◌, String, true, length, arith}
use luaw.Prelude.Int.{ℤ, pos, negsuc}
use luaw.Lpack.{Tag, code}
use luaw.Lpack.Entries.{is_int, int_bytes}
use luaw.Lpack.RoundTrip.{Fits}

-- A bound as the double that Lua gets: an integer, or FLT_MAX or DBL_MAX with a sign.
pub data Bound : Type 0 where
  exact : ℤ → Bound
  neg_flt_max flt_max neg_dbl_max dbl_max : Bound

-- The fields of `{"INT_8", 14, 1, -128, 127}`.
pub record LpackEnum : Type 0 where
  pub name : String
  pub tval : ℕ
  pub size_of : ℕ
  pub min_of : Bound
  pub max_of : Bound

unfoldable pub define_lpack_enum : String → Tag → ℕ → Bound → Bound → LpackEnum
define_lpack_enum name t n lo hi = record {
  name = name;
  tval = code t;
  size_of = n;
  min_of = lo;
  max_of = hi;
}

abbrev marker : String → Tag → LpackEnum
unfolding define_lpack_enum
marker name t = define_lpack_enum name t 1 (exact (pos (code t))) (exact (pos (code t)))

-- From 0 to the largest value of so many bits, and between the bounds of a signed type.
abbrev unsigned_range : String → Tag → ℕ → ℕ → LpackEnum
unfolding define_lpack_enum
unsigned_range name t n bits =
    define_lpack_enum name t n (exact (pos 0)) (exact (pos (2 ^ bits - 1)))

abbrev signed_range : String → Tag → ℕ → ℕ → LpackEnum
unfolding define_lpack_enum
signed_range name t n bits =
    define_lpack_enum name t n (exact (negsuc (2 ^ bits - 1))) (exact (pos (2 ^ bits - 1)))

-- The double nearest to INT64_MAX is 2 ^ 63.
unfoldable pub define_lapck_types : Tag → LpackEnum
unfolding define_lpack_enum
define_lapck_types Tag.type_marker =
    define_lpack_enum "TYPE_MARKER" Tag.type_marker 0 (exact (negsuc 0)) (exact (negsuc 0))
define_lapck_types Tag.map_start = marker "MAP_START" Tag.map_start
define_lapck_types Tag.array_start = marker "ARRAY_START" Tag.array_start
define_lapck_types Tag.dict_start = marker "DICT_START" Tag.dict_start
define_lapck_types Tag.record_end = marker "RECORD_END" Tag.record_end
define_lapck_types Tag.nil = marker "NIL" Tag.nil
define_lapck_types Tag.bool_true = marker "BOOL_TRUE" Tag.bool_true
define_lapck_types Tag.bool_false = marker "BOOL_FALSE" Tag.bool_false
define_lapck_types Tag.uint_8 = unsigned_range "UINT_8" Tag.uint_8 1 8
define_lapck_types Tag.dict_entry = unsigned_range "DICT_ENTRY" Tag.dict_entry 1 8
define_lapck_types Tag.uint_16 = unsigned_range "UINT_16" Tag.uint_16 2 16
define_lapck_types Tag.big_dict_entry = unsigned_range "BIG_DICT_ENTRY" Tag.big_dict_entry 2 16
define_lapck_types Tag.uint_32 = unsigned_range "UINT_32" Tag.uint_32 4 32
define_lapck_types Tag.int_8 = signed_range "INT_8" Tag.int_8 1 7
define_lapck_types Tag.int_16 = signed_range "INT_16" Tag.int_16 2 15
define_lapck_types Tag.int_32 = signed_range "INT_32" Tag.int_32 4 31
define_lapck_types Tag.int_64 =
    define_lpack_enum "INT_64" Tag.int_64 8 (exact (negsuc (2 ^ 63 - 1))) (exact (pos (2 ^ 63)))
define_lapck_types Tag.float = define_lpack_enum "FLOAT" Tag.float 4 neg_flt_max flt_max
define_lapck_types Tag.double = define_lpack_enum "DOUBLE" Tag.double 8 neg_dbl_max dbl_max
define_lapck_types Tag.string = unsigned_range "STRING" Tag.string 1 8
define_lapck_types Tag.big_string = unsigned_range "BIG_STRING" Tag.big_string 2 16
define_lapck_types Tag.huge_string = unsigned_range "HUGE_STRING" Tag.huge_string 4 32

abbrev pub AtMost : ℤ → ℤ → Type 0
AtMost (pos m) (pos n) = m ≤ n
AtMost (negsuc m) (negsuc n) = n ≤ m
AtMost (negsuc m) (pos n) = Unit {0}
AtMost (pos m) (negsuc n) = ⊥

-- An integer between two bounds.
abbrev pub Between : Bound → Bound → ℤ → Type 0
Between (exact lo) (exact hi) i = AtMost lo i × AtMost i hi
Between _ _ i = ⊥

pub define_lapck_types-Fits :
    (t : Tag) (i : ℤ)
    → is_int t ≡ true
    → (Fits t i ↔ Between (define_lapck_types t).min_of (define_lapck_types t).max_of i)
      × (length (int_bytes t i) ≡ (define_lapck_types t).size_of)
unfolding define_lapck_types
define_lapck_types-Fits Tag.uint_8 (pos n) h = ground arith
define_lapck_types-Fits Tag.uint_8 (negsuc n) h = ground arith
define_lapck_types-Fits Tag.dict_entry (pos n) h = ground arith
define_lapck_types-Fits Tag.dict_entry (negsuc n) h = ground arith
define_lapck_types-Fits Tag.uint_16 (pos n) h = ground arith
define_lapck_types-Fits Tag.uint_16 (negsuc n) h = ground arith
define_lapck_types-Fits Tag.big_dict_entry (pos n) h = ground arith
define_lapck_types-Fits Tag.big_dict_entry (negsuc n) h = ground arith
define_lapck_types-Fits Tag.uint_32 (pos n) h = ground arith
define_lapck_types-Fits Tag.uint_32 (negsuc n) h = ground arith
define_lapck_types-Fits Tag.int_8 (pos n) h = ground arith
define_lapck_types-Fits Tag.int_8 (negsuc n) h = ground arith
define_lapck_types-Fits Tag.int_16 (pos n) h = ground arith
define_lapck_types-Fits Tag.int_16 (negsuc n) h = ground arith
define_lapck_types-Fits Tag.int_32 (pos n) h = ground arith
define_lapck_types-Fits Tag.int_32 (negsuc n) h = ground arith
define_lapck_types-Fits _ i h = ground arith
