-- ===== src/Lpack/Entries.antt =====
-- What may stand in a queue of src/lua_lpack.c, as a list of entries with their bytes, and the steps
-- of `serialize_write_Q` that need no Lua number.
use luaw.Prelude.{
  ℕ, zero, suc, ◌+◌, ◌/◌, ◌%◌, ◌^◌, ◌≤◌, ◌<◌, ◌≡◌, refl, Bool, true, false, List, [], ◌∷◌, ◌++◌,
  none, some, length, not, arith,
}
use luaw.Prelude.Int.{ℤ, pos, negsuc}
use luaw.Lpack.{Tag, ok, wrap, be16, be32, code, tag_of, narrow}
use luaw.Lpack.Write.{put, is_single, to_host, marker_case}

-- The `k` lowest bytes of a value, the highest of them first.
abbrev pub high_first : ℕ → ℕ → List ℕ
high_first zero n = []
high_first (suc zero) n = (n % 256) ∷ []
high_first (suc (suc zero)) n = (n / 256 % 256) ∷ (n % 256) ∷ []
high_first (suc (suc (suc k))) n =
    (n / 256 / 256 / 256 % 256) ∷ (n / 256 / 256 % 256) ∷ (n / 256 % 256) ∷ (n % 256) ∷ []

-- A marker that stands alone, a number with its integer type, or a string with its type.
pub data Entry : Type 0 where
  mark : Tag → Entry
  int : Tag → ℤ → Entry
  str : Tag → List ℕ → Entry

-- The bytes of an integer of a type.
abbrev pub int_bytes : Tag → ℤ → List ℕ
int_bytes Tag.uint_8 i = high_first 1 (wrap 256 i)
int_bytes Tag.dict_entry i = high_first 1 (wrap 256 i)
int_bytes Tag.int_8 i = high_first 1 (wrap 256 i)
int_bytes Tag.uint_16 i = high_first 2 (wrap (2 ^ 16) i)
int_bytes Tag.big_dict_entry i = high_first 2 (wrap (2 ^ 16) i)
int_bytes Tag.int_16 i = high_first 2 (wrap (2 ^ 16) i)
int_bytes Tag.uint_32 i = high_first 4 (wrap (2 ^ 32) i)
int_bytes Tag.int_32 i = high_first 4 (wrap (2 ^ 32) i)
int_bytes _ i = []

abbrev pub length_bytes : Tag → ℕ → List ℕ
length_bytes Tag.string n = high_first 1 n
length_bytes Tag.big_string n = high_first 2 n
length_bytes Tag.huge_string n = high_first 4 n
length_bytes _ n = []

abbrev pub body : Entry → List ℕ
body (mark t) = []
body (int t i) = int_bytes t i
body (str t s) = length_bytes t (length s) ++ s

abbrev pub tag : Entry → Tag
tag (mark t) = t
tag (int t i) = t
tag (str t s) = t

abbrev pub encode : List Entry → List ℕ
encode [] = []
encode (e ∷ es) = code (tag e) ∷ (body e ++ encode es)

abbrev pub is_int : Tag → Bool
is_int Tag.uint_8 = true
is_int Tag.dict_entry = true
is_int Tag.int_8 = true
is_int Tag.uint_16 = true
is_int Tag.big_dict_entry = true
is_int Tag.int_16 = true
is_int Tag.uint_32 = true
is_int Tag.int_32 = true
is_int _ = false

-- What a double and then C's conversions keep of an integer: 32 bits of either sign.
abbrev pub IsSmall : ℤ → Type 0
IsSmall (pos n) = n < 2 ^ 32
IsSmall (negsuc n) = n < 2 ^ 31

-- Integers up to 32 bits under an integer's type, strings under a string's type and short enough for it.
abbrev pub IsEntry : Entry → Type 0
IsEntry (mark t) = is_single t ≡ true
IsEntry (int t i) = (is_int t ≡ true) × IsSmall i
IsEntry (str Tag.string s) = length s < 2 ^ 8
IsEntry (str Tag.big_string s) = length s < 2 ^ 16
IsEntry (str Tag.huge_string s) = length s < 2 ^ 31
IsEntry (str _ s) = ⊥

abbrev pub AreEntries : List Entry → Type 0
AreEntries [] = Unit {0}
AreEntries (e ∷ es) = IsEntry e × AreEntries es

pub be16-to_host : (big : Bool) (n : ℕ) → be16 big (to_host big 2 n) ≡ high_first 2 n
unfolding be16
be16-to_host true n = refl
be16-to_host false n = refl

pub be32-to_host : (big : Bool) (n : ℕ) → be32 big (to_host big 4 n) ≡ high_first 4 n
unfolding be32
be32-to_host true n = refl
be32-to_host false n = refl

pub narrow_mod :
    (i : ℤ)
    → IsSmall i
    → (wrap (2 ^ 32) (narrow i) ≡ wrap (2 ^ 32) i)
      × (wrap (2 ^ 16) (narrow i) ≡ wrap (2 ^ 16) i)
      × (wrap 256 (narrow i) ≡ wrap 256 i)
narrow_mod i h = ground arith

pub put-fits :
    (size : ℕ) (out bs : List ℕ) → length out + length bs ≤ size → put size out bs ≡ ok (out ++ bs)
put-fits size out bs h = ground arith

pub code-lt : (t : Tag) → code t < 22
code-lt Tag.type_marker = omega arith
code-lt _ = omega arith

pub tag_of-code : (t : Tag) → tag_of (pos (code t)) ≡ some t
tag_of-code Tag.type_marker = refl
tag_of-code _ = refl

pub narrow-code : (t : Tag) → narrow (pos (code t)) ≡ pos (code t)
narrow-code t = ground (arith, code-lt t)

-- The types whose marker is followed by a value.
abbrev pub takes_value : Tag → Bool
takes_value Tag.type_marker = false
takes_value t = not (is_single t)

pub takes-int : (t : Tag) → is_int t ≡ true → takes_value t ≡ true
takes-int Tag.uint_8 h = refl
takes-int _ h = ground arith

pub takes-str : (t : Tag) (s : List ℕ) → IsEntry (str t s) → takes_value t ≡ true
takes-str Tag.string s h = refl
takes-str Tag.big_string s h = refl
takes-str Tag.huge_string s h = refl
takes-str _ s h = absurd h

pub marker_case-single :
    (t : Tag) (out : List ℕ) → is_single t ≡ true → marker_case (some t) out ≡ ok (none, out)
marker_case-single Tag.type_marker out h = cc
marker_case-single _ out h = ground arith

pub marker_case-value :
    (t : Tag) (out : List ℕ) → takes_value t ≡ true → marker_case (some t) out ≡ ok (some t, out)
marker_case-value Tag.type_marker out h = cc
marker_case-value _ out h = ground arith
