-- ===== src/Lpack/Strings.antt =====
-- Strings in the luapack format (src/lua_lpack.c): `read_number` and `read_string` read back what
-- `serialize_write_Q` writes for them, wherever it stands in a buffer.
use luaw.Prelude.{
  ℕ, ◌+◌, ◌-◌, ◌^◌, ◌≤◌, ◌<◌, ◌≡◌, refl, sym, ap, subst, ◌∙◌, Bool, false, List, [], ◌∷◌, ◌++◌,
  some, if◌then◌else◌, leb, ltb, length, take, drop, arith, length-append, take-all, length-drop,
  Bool-cases, inl, inr,
}
use mathlib.Core.List.{append_assoc}
use luaw.Prelude.Int.{pos}
use luaw.Lpack.{Tag, ok, error, Floats, code}
use luaw.Lpack.Read.{read_number, read_string, window}
use luaw.Lpack.Bounds.{remaining-le, remaining-lt, window-le}
use luaw.Lpack.Format.{tagged, read_number-tagged}
use luaw.Lpack.Entries.{Entry, IsEntry, body, length_bytes, tag_of-code, narrow-code}

module _ {ℓ} {A : Type ℓ} where
  pub drop-append : (xs ys : List A) → drop (length xs) (xs ++ ys) ≡ ys
  drop-append [] ys = refl
  drop-append (x ∷ xs) ys = drop-append xs ys

  take-append : (xs ys : List A) → take (length xs) (xs ++ ys) ≡ xs
  take-append [] ys = refl
  take-append (x ∷ xs) ys = rw (take-append xs ys)

window-rest :
    (d k : ℕ) (buff : List ℕ)
    → k ≤ length buff
    → window buff (pos k) (if leb d (length buff - k) then d else length buff - k)
      ≡ ok (take d (drop k buff))
window-rest d k buff inside = elim (Bool-cases (leb d (length buff - k))) [
  | inl enough ↦ rw enough (window-le buff k d (ground arith))
  | inr few ↦
      rw (few, take-all d (drop k buff) (ground (arith, length-drop k buff)))
        (window-le buff k (length buff - k) (omega arith)
          ∙ ap ok (take-all (length buff - k) (drop k buff) (ground (arith, length-drop k buff))))
]

-- `read_string` for every length, every buffer of less than 2 ^ 31 bytes and every offset up to 2 ^ 31: it fails past the end, and
-- gives the bytes behind the offset, as many as asked for or as there are. It never reads outside the
-- buffer.
read_string-take :
    (d k : ℕ) (buff : List ℕ)
    → length buff < 2 ^ 31
    → k ≤ 2 ^ 31
    → read_string (pos d) buff (pos k) ≡ (
        if ltb (length buff) k
        then error "Buffer underflow while reading string"
        else ok (take d (drop k buff)))
unfolding read_string
read_string-take d k buff small near = elim (Bool-cases (ltb (length buff) k)) [
  | inl past ↦ rw (past, remaining-lt (length buff) k (ground arith) near)
  | inr inside ↦
      rw (inside, remaining-le (length buff) k (ground arith) small)
        (window-rest d k buff (ground arith))
]

-- A string is read whole where the buffer has it.
read_string-append :
    (pre s rest : List ℕ)
    → length (pre ++ (s ++ rest)) < 2 ^ 31
    → read_string (pos (length s)) (pre ++ (s ++ rest)) (pos (length pre)) ≡ ok s
read_string-append pre s rest small =
    let short : length pre ≤ length (pre ++ (s ++ rest)) =
      omega (arith, length-append pre (s ++ rest)) in
    let found : ltb (length (pre ++ (s ++ rest))) (length pre) ≡ false = ground arith in
    rw (read_string-take (length s) (length pre) (pre ++ (s ++ rest)) small (omega arith), found)
      (ap ok (rw (drop-append pre (s ++ rest)) (take-append s rest)))

module _ (fp : Floats) where
  open fp use {of_int}

  tagged-length :
      (t : Tag) (s rest : List ℕ)
      → IsEntry (Entry.str t s)
      → tagged fp (some t) (length_bytes t (length s) ++ rest)
        ≡ ok (length (length_bytes t (length s)), of_int (pos (length s)))
  tagged-length Tag.string s rest h = ground arith
  tagged-length Tag.big_string s rest h = ground arith
  tagged-length Tag.huge_string s rest h = ground arith
  tagged-length _ s rest h = absurd h

  number-body :
      (big : Bool) (t : Tag) (pre s rest : List ℕ)
      → IsEntry (Entry.str t s)
      → length (pre ++ (body (Entry.str t s) ++ rest)) < 2 ^ 31
      → read_number fp big (pos (code t)) (pre ++ (body (Entry.str t s) ++ rest)) (pos (length pre))
        ≡ ok (length (length_bytes t (length s)), of_int (pos (length s)))
  number-body big t pre s rest h small =
      let bytes = body (Entry.str t s) ++ rest in
      let short : length pre ≤ length (pre ++ bytes) = omega (arith, length-append pre bytes) in
      let found : ltb (length (pre ++ bytes)) (length pre) ≡ false = ground arith in
      rw
        (
          read_number-tagged fp big (pos (code t)) (pre ++ bytes) (length pre) small (omega arith),
          found,
          narrow-code t,
          tag_of-code t,
          drop-append pre bytes,
          append_assoc (length_bytes t (length s)) s rest,
        )
        (tagged-length t s (s ++ rest) h)

  -- What is written for a string short enough for its type is read back, wherever it stands in a buffer
  -- of less than 2 ^ 31 bytes: `read_number` gives the length with the number of its bytes, and
  -- `read_string`, asked for that length behind them, the string.
  pub read_string-body :
      (big : Bool) (t : Tag) (pre s rest : List ℕ)
      → IsEntry (Entry.str t s)
      → length (pre ++ (body (Entry.str t s) ++ rest)) < 2 ^ 31
      → let buff = pre ++ (body (Entry.str t s) ++ rest) in
        let n = length (length_bytes t (length s)) in
        (read_number fp big (pos (code t)) buff (pos (length pre))
          ≡ ok (n, of_int (pos (length s))))
        × (read_string (pos (length s)) buff (pos (length pre + n)) ≡ ok s)
  read_string-body big t pre s rest h small =
      let lead : List ℕ = length_bytes t (length s) in
      let split : pre ++ (body (Entry.str t s) ++ rest) ≡ (pre ++ lead) ++ (s ++ rest) =
        rw (append_assoc lead s rest) (sym (append_assoc pre lead (s ++ rest))) in
      let whole =
        read_string-append (pre ++ lead) s rest (subst (λ b. length b < 2 ^ 31) split small) in
      (number-body big t pre s rest h small, rw (split, sym (length-append pre lead)) whole)
