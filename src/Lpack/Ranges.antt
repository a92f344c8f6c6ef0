-- ===== src/Lpack/Ranges.antt =====
-- The bounds that the table of types of src/lua_lpack.c gives, against the writer and the reader.
use luaw.Prelude.{
  ℕ, ◌+◌, ◌^◌, ◌<◌, ◌≡◌, ◌↔◌, sym, ap, subst, ◌∙◌, Bool, true, List, [], ◌∷◌, ◌++◌, some, length,
  arith,
}
use luaw.Prelude.Int.{ℤ, pos, negsuc}
use luaw.Lpack.{Tag, ok, Floats, code, wrap, signed}
use luaw.Lpack.Read.{read_number}
use luaw.Lpack.Write.{serialize_write_Q}
use luaw.Lpack.Entries.{int, is_int, int_bytes, encode, IsSmall}
use luaw.Lpack.Encode.{queue, to_integer-IsSmall, serialize_write_Q-encode}
use luaw.Lpack.RoundTrip.{Fits, Fits-IsEntry, number-int_bytes}
use luaw.Lpack.Types.{define_lapck_types, Between, define_lapck_types-Fits}

-- The integer that the bytes written for another one stand for.
abbrev kept : Tag → ℤ → ℤ
kept Tag.int_8 i = signed (2 ^ 7) (wrap (2 ^ 8) i)
kept Tag.int_16 i = signed (2 ^ 15) (wrap (2 ^ 16) i)
kept Tag.int_32 i = signed (2 ^ 31) (wrap (2 ^ 32) i)
kept Tag.uint_8 i = pos (wrap (2 ^ 8) i)
kept Tag.dict_entry i = pos (wrap (2 ^ 8) i)
kept Tag.uint_16 i = pos (wrap (2 ^ 16) i)
kept Tag.big_dict_entry i = pos (wrap (2 ^ 16) i)
kept _ i = pos (wrap (2 ^ 32) i)

wrap-lt : (m : ℕ) (i : ℤ) → 0 < m → wrap m i < m
wrap-lt m (pos n) h = grind arith
wrap-lt m (negsuc n) h = grind arith

kept-Fits : (t : Tag) (i : ℤ) → is_int t ≡ true → Fits t (kept t i)
kept-Fits Tag.uint_8 i h = wrap-lt (2 ^ 8) i (omega arith)
kept-Fits Tag.dict_entry i h = wrap-lt (2 ^ 8) i (omega arith)
kept-Fits Tag.uint_16 i h = wrap-lt (2 ^ 16) i (omega arith)
kept-Fits Tag.big_dict_entry i h = wrap-lt (2 ^ 16) i (omega arith)
kept-Fits Tag.uint_32 i h = wrap-lt (2 ^ 32) i (omega arith)
kept-Fits Tag.int_8 i h = ground (arith, wrap-lt (2 ^ 8) i)
kept-Fits Tag.int_16 i h = ground (arith, wrap-lt (2 ^ 16) i)
kept-Fits Tag.int_32 i h = ground (arith, wrap-lt (2 ^ 32) i)
kept-Fits _ i h = absurd (cc)

kept-bytes : (t : Tag) (i : ℤ) → is_int t ≡ true → int_bytes t (kept t i) ≡ int_bytes t i
kept-bytes Tag.uint_8 i h = ground (arith, wrap-lt (2 ^ 8) i)
kept-bytes Tag.dict_entry i h = ground (arith, wrap-lt (2 ^ 8) i)
kept-bytes Tag.uint_16 i h = ground (arith, wrap-lt (2 ^ 16) i)
kept-bytes Tag.big_dict_entry i h = ground (arith, wrap-lt (2 ^ 16) i)
kept-bytes Tag.uint_32 i h = ground (arith, wrap-lt (2 ^ 32) i)
kept-bytes Tag.int_8 i h = ground (arith, wrap-lt (2 ^ 8) i)
kept-bytes Tag.int_16 i h = ground (arith, wrap-lt (2 ^ 16) i)
kept-bytes Tag.int_32 i h = ground (arith, wrap-lt (2 ^ 32) i)
kept-bytes _ i h = absurd (cc)

int_bytes-short : (t : Tag) (i : ℤ) → length (int_bytes t i ++ []) < 16
int_bytes-short Tag.uint_8 i = omega arith
int_bytes-short Tag.dict_entry i = omega arith
int_bytes-short Tag.uint_16 i = omega arith
int_bytes-short Tag.big_dict_entry i = omega arith
int_bytes-short Tag.uint_32 i = omega arith
int_bytes-short Tag.int_8 i = omega arith
int_bytes-short Tag.int_16 i = omega arith
int_bytes-short Tag.int_32 i = omega arith
int_bytes-short _ i = omega arith

module _ (fp : Floats) where
  open fp use {of_int}

  -- What is read back behind the marker of an integer that was written.
  reads-kept :
      (big : Bool) (t : Tag) (i : ℤ)
      → is_int t ≡ true
      → read_number fp big (pos (code t)) (encode (int t i ∷ [])) (pos 1)
        ≡ ok (length (int_bytes t i), of_int (kept t i))
  reads-kept big t i h =
      let bytes = kept-bytes t i h in
      let short : length (int_bytes t (kept t i) ++ []) < 16 = rw bytes (int_bytes-short t i) in
      subst
        (λ bs.
          read_number fp big (pos (code t)) (code t ∷ (bs ++ [])) (pos 1)
          ≡ ok (length bs, of_int (kept t i)))
        bytes
        (number-int_bytes fp big t (kept t i) (code t ∷ []) [] (kept-Fits t i h)
          (omega (arith, short)))

  -- The table's bounds of a type of integers are those between which the code reads back what it
  -- wrote: a number of at most 32 bits, written behind the type's marker, is what `read_number` gives
  -- for the bytes behind the marker, with the table's size as their number, exactly if it lies between
  -- the table's bounds. The expected length is not 0 and fits an `int` with 64 more; on machines of both
  -- byte orders.
  pub define_lapck_types-read_number :
      (big : Bool) (t : Tag) (i : ℤ) (len : ℕ)
      → is_int t ≡ true
      → IsSmall i
      → 0 < len
      → len + 64 < 2 ^ 31
      → let e = define_lapck_types t in
        (out : List ℕ) × (serialize_write_Q fp big (some (queue fp big (int t i ∷ []))) len true
          ≡ ok out)
        × (Between e.min_of e.max_of i
            ↔ (read_number fp big (pos (code t)) out (pos 1) ≡ ok (e.size_of, of_int i)))
  define_lapck_types-read_number big t i len h small low high =
      let (fits, sized) = define_lapck_types-Fits t i h in
      let short = int_bytes-short t i in
      (
        encode (int t i ∷ []),
        serialize_write_Q-encode fp big (int t i ∷ []) len ((h, small), tt) low high
            (omega (arith, short)),
        (
          λ b.
              let v = fits.1 b in
              rw sized at (number-int_bytes fp big t i (code t ∷ []) [] v (omega (arith, short))),
          λ r.
              let k = kept-Fits t i h in
              let same : of_int (kept t i) ≡ of_int i = cc (r, reads-kept big t i h) in
              let back : kept t i ≡ i =
                sym (to_integer-IsSmall fp big (kept t i) (Fits-IsEntry fp t (kept t i) k).1)
                ∙ ap (fp.to_integer) same
                ∙ to_integer-IsSmall fp big i small in
              fits.0 (subst (Fits t) back k),
        ),
      )
