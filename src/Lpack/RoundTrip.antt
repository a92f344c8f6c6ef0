-- ===== src/Lpack/RoundTrip.antt =====
-- `read_number` reads back what `serialize_write_Q` writes for an integer (src/lua_lpack.c).
use luaw.Prelude.{
  ℕ, ◌+◌, ◌^◌, ◌≤◌, ◌<◌, ◌≡◌, refl, sym, subst, ◌∙◌, Bool, true, false, List, [], ◌∷◌, ◌++◌, some,
  ltb, length, length-append, arith,
}
use mathlib.Core.List.{append_assoc}
use luaw.Prelude.Int.{ℤ, pos, negsuc}
use luaw.Lpack.{Tag, ok, Floats, code}
use luaw.Lpack.Read.{read_number}
use luaw.Lpack.Format.{tagged, read_number-tagged}
use luaw.Lpack.Write.{serialize_write_Q}
use luaw.Lpack.Entries.{
  Entry, int, int_bytes, body, encode, IsEntry, AreEntries, tag_of-code, narrow-code,
}
use luaw.Lpack.Encode.{queue, serialize_write_Q-encode}
use luaw.Lpack.Strings.{drop-append}

-- The range that the Lua table of the types gives for an integer's type.
abbrev pub Fits : Tag → ℤ → Type 0
Fits Tag.uint_8 (pos n) = n < 2 ^ 8
Fits Tag.dict_entry (pos n) = n < 2 ^ 8
Fits Tag.uint_16 (pos n) = n < 2 ^ 16
Fits Tag.big_dict_entry (pos n) = n < 2 ^ 16
Fits Tag.uint_32 (pos n) = n < 2 ^ 32
Fits Tag.int_8 (pos n) = n < 2 ^ 7
Fits Tag.int_8 (negsuc n) = n < 2 ^ 7
Fits Tag.int_16 (pos n) = n < 2 ^ 15
Fits Tag.int_16 (negsuc n) = n < 2 ^ 15
Fits Tag.int_32 (pos n) = n < 2 ^ 31
Fits Tag.int_32 (negsuc n) = n < 2 ^ 31
Fits _ _ = ⊥

module _ (fp : Floats) where
  open fp use {of_int}

  tagged-int :
      (t : Tag) (i : ℤ) (rest : List ℕ)
      → Fits t i
      → tagged fp (some t) (int_bytes t i ++ rest) ≡ ok (length (int_bytes t i), of_int i)
  tagged-int Tag.uint_8 (pos n) rest h = ground arith
  tagged-int Tag.dict_entry (pos n) rest h = ground arith
  tagged-int Tag.uint_16 (pos n) rest h = ground arith
  tagged-int Tag.big_dict_entry (pos n) rest h = ground arith
  tagged-int Tag.uint_32 (pos n) rest h = ground arith
  tagged-int Tag.int_8 (pos n) rest h = ground arith
  tagged-int Tag.int_8 (negsuc n) rest h = ground arith
  tagged-int Tag.int_16 (pos n) rest h = ground arith
  tagged-int Tag.int_16 (negsuc n) rest h = ground arith
  tagged-int Tag.int_32 (pos n) rest h = ground arith
  tagged-int Tag.int_32 (negsuc n) rest h = ground arith
  tagged-int _ _ rest h = absurd h

  pub number-int_bytes :
      (big : Bool) (t : Tag) (i : ℤ) (pre rest : List ℕ)
      → Fits t i
      → length (pre ++ (int_bytes t i ++ rest)) < 2 ^ 31
      → read_number fp big (pos (code t)) (pre ++ (int_bytes t i ++ rest)) (pos (length pre))
        ≡ ok (length (int_bytes t i), of_int i)
  number-int_bytes big t i pre rest h small =
      let bytes = int_bytes t i ++ rest in
      let short : length pre ≤ length (pre ++ bytes) = omega (arith, length-append pre bytes) in
      let found : ltb (length (pre ++ bytes)) (length pre) ≡ false = ground arith in
      rw
        (
          read_number-tagged fp big (pos (code t)) (pre ++ bytes) (length pre) small (omega arith),
          found,
          narrow-code t,
          tag_of-code t,
          drop-append pre bytes,
        )
        (tagged-int t i rest h)

  encode-append : (es fs : List Entry) → encode (es ++ fs) ≡ encode es ++ encode fs
  encode-append [] fs = refl
  encode-append (e ∷ es) fs =
      rw (encode-append es fs, append_assoc (body e) (encode es) (encode fs)) refl

  append-AreEntries : (es fs : List Entry) → AreEntries es → AreEntries fs → AreEntries (es ++ fs)
  append-AreEntries [] fs v w = w
  append-AreEntries (e ∷ es) fs v w = (v.0, append-AreEntries es fs v.1 w)

  pub Fits-IsEntry : (t : Tag) (i : ℤ) → Fits t i → IsEntry (int t i)
  Fits-IsEntry Tag.uint_8 (pos n) h = ground arith
  Fits-IsEntry Tag.dict_entry (pos n) h = ground arith
  Fits-IsEntry Tag.uint_16 (pos n) h = ground arith
  Fits-IsEntry Tag.big_dict_entry (pos n) h = ground arith
  Fits-IsEntry Tag.uint_32 (pos n) h = ground arith
  Fits-IsEntry Tag.int_8 (pos n) h = ground arith
  Fits-IsEntry Tag.int_8 (negsuc n) h = ground arith
  Fits-IsEntry Tag.int_16 (pos n) h = ground arith
  Fits-IsEntry Tag.int_16 (negsuc n) h = ground arith
  Fits-IsEntry Tag.int_32 (pos n) h = ground arith
  Fits-IsEntry Tag.int_32 (negsuc n) h = ground arith
  Fits-IsEntry _ _ h = absurd h

  -- An integer in its type's range survives the writer and the reader, among whatever entries it stands:
  -- the queue of `es`, the integer and `fs` is written, and `read_number` behind the integer's marker in
  -- what was written gives the integer with the number of its bytes. The expected length is not 0, fits
  -- an `int` with 64 more, and falls short of the encoding's by at most 64; on machines of both byte
  -- orders.
  pub serialize_write_Q-read_number :
      (big : Bool) (t : Tag) (i : ℤ) (es fs : List Entry) (len : ℕ)
      → Fits t i
      → AreEntries es
      → AreEntries fs
      → 0 < len
      → len + 64 < 2 ^ 31
      → length (encode (es ++ int t i ∷ fs)) ≤ len + 64
      → (out : List ℕ) × (serialize_write_Q fp big
            (some (queue fp big (es ++ int t i ∷ fs)))
            len
            true
          ≡ ok out)
        × (read_number fp big (pos (code t)) out (pos (length (encode es) + 1))
            ≡ ok (length (int_bytes t i), of_int i))
  serialize_write_Q-read_number big t i es fs len h v w low high room =
      let lead : List ℕ = encode es ++ code t ∷ [] in
      let split : encode (es ++ int t i ∷ fs) ≡ lead ++ (int_bytes t i ++ encode fs) =
        encode-append es (int t i ∷ fs)
        ∙ sym (append_assoc (encode es) (code t ∷ []) (int_bytes t i ++ encode fs)) in
      let small = subst (λ b. length b < 2 ^ 31) split (omega arith) in
      (
        encode (es ++ int t i ∷ fs),
        serialize_write_Q-encode fp big (es ++ int t i ∷ fs) len
            (append-AreEntries es (int t i ∷ fs) v (Fits-IsEntry t i h, w)) low high room,
        rw (split, sym (length-append (encode es) (code t ∷ [])))
            (number-int_bytes big t i lead (encode fs) h small),
      )
