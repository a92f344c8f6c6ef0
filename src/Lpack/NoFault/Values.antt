-- ===== src/Lpack/NoFault/Values.antt =====
-- The values that `serialize_write_Q` (src/lua_lpack.c) writes behind a marker, and the buffer they fit in.
use luaw.Prelude.{
  ℕ, ◌+◌, ◌%◌, ◌^◌, ◌≤◌, ◌≡◌, ◌≢◌, refl, ap, ◌++◌, length-append, Bool, true, false, List, [], ◌∷◌,
  ◌<◌, ltb, length, arith, Bool-cases, inl, inr,
}
use luaw.Lpack.{Tag, Result, ok, error, fault, ◌>>=◌, Floats, wrap, be64, narrow}
use luaw.Prelude.Int.{pos}
use luaw.Lpack.Write.{
  Item, number, string, other, put, check_room, exceeds, to_host, fetch_next_as_integer,
  fetch_next_as_double, fetch_next_as_string, byte_case, short_case, string_case, byte_length,
  short_length, word_length, write_value,
}
use luaw.Lpack.Entries.{be16-to_host, be32-to_host, put-fits}

-- A run that makes no access outside a buffer, and has a property where it ends with a result.
abbrev pub Ensures : {A : Type 0} → (A → Type 0) → Result A → Type 0
Ensures P (ok a) = P a
Ensures P (error m) = Unit {0}
Ensures P fault = ⊥

abbrev pub IsSafe : {A : Type 0} → Result A → Type 0
IsSafe m = Ensures (λ _. Unit {0}) m

pub Ensures->>= :
    {A B : Type 0} (P : A → Type 0) (Q : B → Type 0) (m : Result A) (f : A → Result B)
    → Ensures P m
    → ((a : A) → P a → Ensures Q (f a))
    → Ensures Q (m >>= f)
Ensures->>= P Q (ok a) f h k = k a h
Ensures->>= P Q (error m) f h k = h
Ensures->>= P Q fault f h k = h

-- A run that makes no access outside a buffer and leaves at most `size` bytes.
abbrev pub IsWithin : ℕ → Result (List ℕ) → Type 0
IsWithin size m = Ensures (λ out. length out ≤ size) m

IsWithin->>= :
    {A : Type 0} (size : ℕ) (m : Result A) (f : A → Result (List ℕ))
    → IsSafe m
    → ((a : A) → IsWithin size (f a))
    → IsWithin size (m >>= f)
IsWithin->>= size m f h k =
    Ensures->>= (λ _. Unit {0}) (λ out. length out ≤ size) m f h (λ a _. k a)

put-IsWithin :
    (size : ℕ) (out bs : List ℕ) → length out + length bs ≤ size → IsWithin size (put size out bs)
put-IsWithin size out bs h = rw (put-fits size out bs h) (omega (arith, length-append out bs))

-- Where the sum does not wrap, `CHECK_ROOM` tells whether there is room.
pub room_is :
    (n size : ℕ) (out : List ℕ)
    → length out ≤ size
    → n ≤ 8
    → size + 8 < 2 ^ 31
    → exceeds size (narrow (pos (length out + n))) ≡ ltb size (length out + n)
room_is n size out w few small = ground arith

-- A value whose bytes are as many as the room that was checked.
sized-IsWithin :
    {B : Type 0} (n size : ℕ) (out : List ℕ) (m : Result B) (g : B → List ℕ)
    → length out ≤ size
    → n ≤ 8
    → size + 8 < 2 ^ 31
    → IsSafe m
    → ((b : B) → length (g b) ≡ n)
    → IsWithin size (check_room size out n (m >>= λ b. put size out (g b)))
sized-IsWithin n size out m g w few small h k = elim (Bool-cases (ltb size (length out + n))) [
  | inl full ↦ rw (room_is n size out w few small, full) tt
  | inr room ↦
      rw (room_is n size out w few small, room)
        (IsWithin->>= size m _ h (λ b. put-IsWithin size out (g b) (ground (arith, k b))))
]

length-be64 : (big : Bool) (n : ℕ) → length (be64 big (to_host big 8 n)) ≡ 8
unfolding be64
length-be64 true n = refl
length-be64 false n = refl

module _ (fp : Floats) (big : Bool) where
  open fp use {Double, to_integer, to_int64, float_bits, double_bits}

  fetch-IsSafe :
      (v : Item Double)
      → IsSafe (fetch_next_as_integer fp big v)
        × IsSafe (fetch_next_as_double fp big v)
        × IsSafe (fetch_next_as_string fp big v)
  unfolding fetch_next_as_integer fetch_next_as_double fetch_next_as_string
  fetch-IsSafe (number d) = ground arith
  fetch-IsSafe (string s) = ground arith
  fetch-IsSafe other = ground arith

  pub integer-IsSafe : (v : Item Double) → IsSafe (fetch_next_as_integer fp big v)
  integer-IsSafe v = (fetch-IsSafe v).0

  double-IsSafe : (v : Item Double) → IsSafe (fetch_next_as_double fp big v)
  double-IsSafe v = (fetch-IsSafe v).1

  string_case-IsWithin :
      (n : ℕ) (prefix : ℕ → List ℕ) (size : ℕ) (out : List ℕ) (v : Item Double)
      → ((k : ℕ) → length (prefix k) ≡ n)
      → IsWithin size (string_case fp big n prefix size out v)
  string_case-IsWithin n prefix size out v h =
      IsWithin->>= size (fetch_next_as_string fp big v) _ (fetch-IsSafe v).2 λ s.
        elim (Bool-cases (ltb size (length out + (n + length s)))) [
          | inl full ↦ rw full tt
          | inr room ↦
              rw (room, put-fits size out (prefix (length s)) (ground (arith, h (length s))))
                (put-IsWithin size (out ++ prefix (length s)) s
                  (ground (arith, h (length s), length-append out (prefix (length s)))))
        ]

  byte_case-IsWithin :
      (size : ℕ) (out : List ℕ) (v : Item Double)
      → length out ≤ size
      → size + 8 < 2 ^ 31
      → IsWithin size (byte_case fp big size out v)
  byte_case-IsWithin size out v w small =
      sized-IsWithin 1 size out (fetch_next_as_integer fp big v) (λ i. wrap 256 i ∷ []) w
        (omega arith) small (integer-IsSafe v) (λ i. refl)

  short_case-IsWithin :
      (size : ℕ) (out : List ℕ) (v : Item Double)
      → length out ≤ size
      → size + 8 < 2 ^ 31
      → IsWithin size (short_case fp big size out v)
  short_case-IsWithin size out v w small =
      sized-IsWithin 2 size out _ _ w (omega arith) small (integer-IsSafe v)
        (λ i. ap length (be16-to_host big (wrap (2 ^ 16) i)))

  pub write_value-IsWithin :
      (t : Tag) (size : ℕ) (out : List ℕ) (v : Item Double)
      → length out ≤ size
      → size + 8 < 2 ^ 31
      → t ≢ Tag.uint_32
      → IsWithin size (write_value fp big t size out v)
  unfolding write_value
  write_value-IsWithin Tag.uint_8 size out v w small h = byte_case-IsWithin size out v w small
  write_value-IsWithin Tag.dict_entry size out v w small h = byte_case-IsWithin size out v w small
  write_value-IsWithin Tag.uint_16 size out v w small h = short_case-IsWithin size out v w small
  write_value-IsWithin Tag.big_dict_entry size out v w small h =
      short_case-IsWithin size out v w small
  write_value-IsWithin Tag.uint_32 size out v w small h = absurd (h refl)
  write_value-IsWithin Tag.int_8 size out v w small h = byte_case-IsWithin size out v w small
  write_value-IsWithin Tag.int_16 size out v w small h = short_case-IsWithin size out v w small
  write_value-IsWithin Tag.int_32 size out v w small h =
      sized-IsWithin 4 size out _ _ w (omega arith) small (integer-IsSafe v)
        (λ i. ap length (be32-to_host big (wrap (2 ^ 32) i)))
  write_value-IsWithin Tag.int_64 size out v w small h =
      sized-IsWithin 8 size out _ _ w (omega arith) small (double-IsSafe v)
        (λ d. length-be64 big (wrap (2 ^ 64) (to_int64 d)))
  write_value-IsWithin Tag.float size out v w small h =
      sized-IsWithin 4 size out _ _ w (omega arith) small (double-IsSafe v)
        (λ d. ap length (be32-to_host big (float_bits d)))
  write_value-IsWithin Tag.double size out v w small h =
      sized-IsWithin 8 size out _ _ w (omega arith) small (double-IsSafe v)
        (λ d. length-be64 big (double_bits d))
  write_value-IsWithin Tag.string size out v w small h =
      string_case-IsWithin 1 (byte_length fp big) size out v (λ k. refl)
  write_value-IsWithin Tag.big_string size out v w small h =
      string_case-IsWithin 2 (short_length fp big) size out v
        (λ k. ap length (be16-to_host big (k % 2 ^ 16)))
  write_value-IsWithin Tag.huge_string size out v w small h =
      string_case-IsWithin 4 (word_length fp big) size out v
        (λ k. ap length (be32-to_host big (k % 2 ^ 32)))
  write_value-IsWithin _ size out v w small h = tt
