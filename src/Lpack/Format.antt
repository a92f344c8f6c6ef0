-- ===== src/Lpack/Format.antt =====
-- The numbers of the luapack format, described without the machine that reads them: how many bytes
-- each type has, and what they stand for with the highest byte first. `read_number` of
-- src/lua_lpack.c implements it on machines of both byte orders.
use luaw.Prelude.{
  ℕ, ◌+◌, ◌-◌, ◌*◌, ◌^◌, ◌≤◌, ◌<◌, ◌≡◌, refl, ap, Bool, true, false, List, [], ◌∷◌, Option, none,
  some, if◌then◌else◌, ltb, length, take, drop, arith, Bool-cases, inl, inr, length-take,
  length-drop,
}
use luaw.Prelude.Int.{ℤ, pos}
use luaw.Lpack.{
  Tag, Result, ok, error, signed, Floats, tag_of, narrow, be16, be32, be64, of_low_first,
}
use luaw.Lpack.Read.{fixed, switch, read_number, read_case, of_host}
use luaw.Lpack.Bounds.{remaining-le, remaining-lt, window-le}

abbrev pub big_endian : ℕ → List ℕ → ℕ
big_endian acc [] = acc
big_endian acc (b ∷ bs) = big_endian (acc * 256 + b) bs

-- The bytes that a number of the type has behind its marker; no number has the other types.
abbrev pub size : Tag → Option ℕ
size Tag.type_marker = some 1
size Tag.uint_8 = some 1
size Tag.dict_entry = some 1
size Tag.uint_16 = some 2
size Tag.big_dict_entry = some 2
size Tag.uint_32 = some 4
size Tag.int_8 = some 1
size Tag.int_16 = some 2
size Tag.int_32 = some 4
size Tag.int_64 = some 8
size Tag.float = some 4
size Tag.double = some 8
size Tag.string = some 1
size Tag.big_string = some 2
size Tag.huge_string = some 4
size _ = none

-- The byte swaps give the value with the highest byte first, on both kinds of machine.
be16-host : (big : Bool) (bs : List ℕ) → length bs ≡ 2 → of_host big (be16 big bs) ≡ big_endian 0 bs
unfolding be16
be16-host true (a ∷ b ∷ []) h = omega arith
be16-host false (a ∷ b ∷ []) h = omega arith
be16-host _ _ h = absurd (omega arith)

be32-host : (big : Bool) (bs : List ℕ) → length bs ≡ 4 → of_host big (be32 big bs) ≡ big_endian 0 bs
unfolding be32
be32-host true (a ∷ b ∷ c ∷ d ∷ []) h = omega arith
be32-host false (a ∷ b ∷ c ∷ d ∷ []) h = omega arith
be32-host _ _ h = absurd (omega arith)

be64-host : (big : Bool) (bs : List ℕ) → length bs ≡ 8 → of_host big (be64 big bs) ≡ big_endian 0 bs
unfolding be64
be64-host true (a ∷ b ∷ c ∷ d ∷ e ∷ f ∷ g ∷ h ∷ []) l = omega arith
be64-host false (a ∷ b ∷ c ∷ d ∷ e ∷ f ∷ g ∷ h ∷ []) l = omega arith
be64-host _ _ l = absurd (omega arith)

module _ (fp : Floats) where
  open fp use {Double, of_int, of_float_bits, of_double_bits}

  -- The number that the bytes stand for.
  abbrev pub value : Tag → List ℕ → Double
  value Tag.int_8 bs = of_int (signed (2 ^ 7) (big_endian 0 bs))
  value Tag.int_16 bs = of_int (signed (2 ^ 15) (big_endian 0 bs))
  value Tag.int_32 bs = of_int (signed (2 ^ 31) (big_endian 0 bs))
  value Tag.int_64 bs = of_int (signed (2 ^ 63) (big_endian 0 bs))
  value Tag.float bs = of_float_bits (big_endian 0 bs)
  value Tag.double bs = of_double_bits (big_endian 0 bs)
  value _ bs = of_int (pos (big_endian 0 bs))

  -- What a reader makes of the bytes behind an offset, `rest`.
  abbrev pub sized : Option ℕ → (List ℕ → Double) → List ℕ → Result (ℕ × Double)
  sized none make rest = error "Invalid marker %d specified"
  sized (some n) make rest =
      if ltb (length rest) n then ok (0, of_int (pos 0)) else ok (n, make (take n rest))

  abbrev pub tagged : Option Tag → List ℕ → Result (ℕ × Double)
  tagged none rest = error "Invalid marker %d specified"
  tagged (some tag) rest = sized (size tag) (value tag) rest

  module _ (big : Bool) (buff : List ℕ) (k : ℕ) (inside : k ≤ length buff)
      (small : length buff < 2 ^ 31) where
    abbrev unsigned : ℕ → Double
    unsigned u = of_int (pos u)

    abbrev chunk : ℕ → List ℕ
    chunk n = take n (drop k buff)

    length-chunk : (n : ℕ) → n ≤ length buff - k → length (chunk n) ≡ n
    length-chunk n h = omega (arith, length-take n (drop k buff), length-drop k buff)

    byte-host : (bs : List ℕ) → length bs ≡ 1 → of_low_first bs ≡ big_endian 0 bs
    byte-host (a ∷ []) h = omega arith
    byte-host _ h = absurd (omega arith)

    fixed-sized :
        (n : ℕ) (f g : List ℕ → Double)
        → ((bs : List ℕ) → length bs ≡ n → f bs ≡ g bs)
        → fixed fp big buff (pos k) n f ≡ sized (some n) g (drop k buff)
    fixed-sized n f g same = elim (Bool-cases (ltb (length (drop k buff)) n)) [
      | inl few ↦
          rw (few, remaining-le (length buff) k inside small) (ground (arith, length-drop k buff))
      | inr enough ↦
          let room : n ≤ length buff - k = ground (arith, length-drop k buff) in
          rw (enough, remaining-le (length buff) k inside small)
            (ground (arith, window-le buff k n, same (chunk n) (length-chunk n room)))
    ]

    read_case-sized :
        (tag : Tag) → read_case fp big tag buff (pos k) ≡ sized (size tag) (value tag) (drop k buff)
    unfolding read_case
    read_case-sized Tag.type_marker = fixed-sized 1 _ _ (λ bs h. ap unsigned (byte-host bs h))
    read_case-sized Tag.uint_8 = fixed-sized 1 _ _ (λ bs h. ap unsigned (byte-host bs h))
    read_case-sized Tag.dict_entry = fixed-sized 1 _ _ (λ bs h. ap unsigned (byte-host bs h))
    read_case-sized Tag.string = fixed-sized 1 _ _ (λ bs h. ap unsigned (byte-host bs h))
    read_case-sized Tag.uint_16 = fixed-sized 2 _ _ (λ bs h. ap unsigned (be16-host big bs h))
    read_case-sized Tag.big_dict_entry =
        fixed-sized 2 _ _ (λ bs h. ap unsigned (be16-host big bs h))
    read_case-sized Tag.big_string = fixed-sized 2 _ _ (λ bs h. ap unsigned (be16-host big bs h))
    read_case-sized Tag.uint_32 = fixed-sized 4 _ _ (λ bs h. ap unsigned (be32-host big bs h))
    read_case-sized Tag.huge_string = fixed-sized 4 _ _ (λ bs h. ap unsigned (be32-host big bs h))
    read_case-sized Tag.int_8 =
        fixed-sized 1 _ _ (λ bs h. ap (λ u. of_int (signed (2 ^ 7) u)) (byte-host bs h))
    read_case-sized Tag.int_16 =
        fixed-sized 2 _ _ (λ bs h. ap (λ u. of_int (signed (2 ^ 15) u)) (be16-host big bs h))
    read_case-sized Tag.int_32 =
        fixed-sized 4 _ _ (λ bs h. ap (λ u. of_int (signed (2 ^ 31) u)) (be32-host big bs h))
    read_case-sized Tag.int_64 =
        fixed-sized 8 _ _ (λ bs h. ap (λ u. of_int (signed (2 ^ 63) u)) (be64-host big bs h))
    read_case-sized Tag.float = fixed-sized 4 _ _ (λ bs h. ap of_float_bits (be32-host big bs h))
    read_case-sized Tag.double = fixed-sized 8 _ _ (λ bs h. ap of_double_bits (be64-host big bs h))
    read_case-sized _ = refl

    switch-tagged : (t : Option Tag) → switch fp big t buff (pos k) ≡ tagged t (drop k buff)
    switch-tagged none = refl
    switch-tagged (some tag) = read_case-sized tag

  -- `read_number` reads the luapack format, for every type, narrowed to an `int`, every buffer of less
  -- than 2 ^ 31 bytes and every offset from 0 up to 2 ^ 31: it fails past the end and on a type that no
  -- number has, answers 0 bytes where too few are left, and else gives the value of the bytes. Within
  -- these bounds it makes no access outside the buffer.
  pub read_number-tagged :
      (big : Bool) (num_type : ℤ) (buff : List ℕ) (k : ℕ)
      → length buff < 2 ^ 31
      → k ≤ 2 ^ 31
      → read_number fp big num_type buff (pos k) ≡ (
          if ltb (length buff) k
          then error "Buffer underflow while reading number"
          else tagged (tag_of (narrow num_type)) (drop k buff))
  unfolding read_number
  read_number-tagged big num_type buff k small near = elim (Bool-cases (ltb (length buff) k)) [
    | inl past ↦ rw (past, remaining-lt (length buff) k (ground arith) near)
    | inr inside ↦
        rw (inside, remaining-le (length buff) k (ground arith) small)
          (switch-tagged big buff k (ground arith) small (tag_of (narrow num_type)))
  ]
