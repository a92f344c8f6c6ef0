-- ===== src/Http/Splits.antt =====
-- Form parameters described without a state machine: a text is split at '&', and each part at its first
-- '='. `luaw_url_decode` of src/luaw_http_parser.c reads a text in this way.
use luaw.Prelude.{
  ℕ, ◌≡◌, refl, Bool, true, false, List, [], ◌∷◌, ◌++◌, Option, none, some, if◌then◌else◌, ◌==◌,
  ◌&&◌, not, ap, arith,
}
use mathlib.Core.List.{append_assoc}
use luaw.Http.UrlDecode.{
  Ending, stored, bad_name_start, bad_name, bad_value_start, bad_value, empty_name, missing_store,
}

-- '+' stands for a space.
abbrev pub space : ℕ → ℕ
space c = if c == 43 then 32 else c

abbrev pub spaces : List ℕ → List ℕ
spaces [] = []
spaces (c ∷ cs) = space c ∷ spaces cs

-- A part of a text, with the text behind it.
abbrev pub Part : Type 0
Part = List ℕ × List ℕ

abbrev pub add_byte : ℕ → List ℕ → Part × List Part → Part × List Part
add_byte c cs s = if c == 38 then (([], 38 ∷ cs), s.0 ∷ s.1) else ((c ∷ s.0.0, s.0.1), s.1)

-- The part up to the first '&', and the parts behind it.
abbrev pub split : List ℕ → Part × List Part
split [] = (([], []), [])
split (c ∷ cs) = add_byte c cs (split cs)

-- The text before the first '=', and the text behind it if there is one.
abbrev pub cut : List ℕ → List ℕ × Option (List ℕ)
cut [] = ([], none)
cut (c ∷ cs) = if c == 61 then ([], some cs) else (c ∷ (cut cs).0, (cut cs).1)

-- The text from the first '=' on.
abbrev pub from_equals : List ℕ → Option (List ℕ)
from_equals [] = none
from_equals (c ∷ cs) = if c == 61 then some (c ∷ cs) else from_equals cs

-- What is stored comes behind pairs that are stored already.
abbrev pub behind : List (List ℕ × List ℕ) → Ending → Ending
behind ps (stored qs) = stored (ps ++ qs)
behind ps (bad_name_start qs place) = bad_name_start (ps ++ qs) place
behind ps (bad_name qs place) = bad_name (ps ++ qs) place
behind ps (bad_value_start qs place) = bad_value_start (ps ++ qs) place
behind ps (bad_value qs place) = bad_value (ps ++ qs) place
behind ps (empty_name qs place) = empty_name (ps ++ qs) place
behind ps (missing_store qs) = missing_store (ps ++ qs)

-- Where the first ends in an error, that is all.
abbrev pub and_then : Ending → Ending → Ending
and_then (stored ps) e = behind ps e
and_then other e = other

abbrev pub no_equals : List ℕ → Bool
no_equals [] = true
no_equals (c ∷ cs) = not (c == 61) && no_equals cs

-- A name or a value that is complete: not empty, and without '='.
abbrev pub IsPart : List ℕ → Type 0
IsPart [] = ⊥
IsPart (c ∷ cs) = no_equals (c ∷ cs) ≡ true

cut-name : (n : List ℕ) → no_equals n ≡ true → cut n ≡ (n, none)
cut-name [] h = refl
cut-name (c ∷ cs) h = ground (arith, cut-name cs)

cut-pair : (n v : List ℕ) → no_equals n ≡ true → cut (n ++ 61 ∷ v) ≡ (n, some v)
cut-pair [] v h = refl
cut-pair (c ∷ cs) v h = ground (arith, cut-pair cs v)

from_equals-none : (v : List ℕ) → no_equals v ≡ true → from_equals v ≡ none
from_equals-none [] h = refl
from_equals-none (c ∷ cs) h = ground (arith, from_equals-none cs)

from_equals-second :
    (v ds : List ℕ) → no_equals v ≡ true → from_equals (v ++ 61 ∷ ds) ≡ some (61 ∷ ds)
from_equals-second [] ds h = refl
from_equals-second (c ∷ cs) ds h = ground (arith, from_equals-second cs ds)

pub no_equals-append : (xs ys : List ℕ) → no_equals (xs ++ ys) ≡ (no_equals xs && no_equals ys)
no_equals-append [] ys = refl
no_equals-append (x ∷ xs) ys = ground (arith, no_equals-append xs ys)

pub spaces-append : (xs ys : List ℕ) → spaces (xs ++ ys) ≡ spaces xs ++ spaces ys
spaces-append [] ys = refl
spaces-append (x ∷ xs) ys = ap (λ zs. space x ∷ zs) (spaces-append xs ys)

-- A part and what stands behind it are the text.
pub append-split : (str : List ℕ) → (split str).0.0 ++ (split str).0.1 ≡ str
append-split [] = refl
append-split (c ∷ cs) = ground (arith, append-split cs)

-- `decode` replaces the escapes of a name or a value, and may see the text behind it.
module _ (decode : List ℕ → List ℕ → List ℕ) where
  abbrev pub decoded : List ℕ → List ℕ → List ℕ → List ℕ × List ℕ
  decoded n v after = (decode (spaces n) (61 ∷ (spaces v ++ after)), decode (spaces v) after)

  -- A value that begins with another byte than '=' has none behind it either.
  abbrev pub value_of : List ℕ × List ℕ → List ℕ → Option (List ℕ) → Ending
  value_of (n, v) after none = stored (decoded n v after ∷ [])
  value_of (n, v) after (some wrong) = bad_value [] (wrong ++ after)

  -- A part with '&' behind it is a name and a value, neither of them empty. An error names the place
  -- that is to blame, by the text from there on.
  abbrev pub pair_of : List ℕ → List ℕ × Option (List ℕ) → List ℕ → Ending
  pair_of part ([], v) after = bad_name_start [] (part ++ after)
  pair_of part (c ∷ cs, none) after = bad_name [] after
  pair_of part (c ∷ cs, some []) after = bad_value_start [] after
  pair_of part (c ∷ cs, some (d ∷ ds)) after =
      if d == 61
      then bad_value_start [] (d ∷ (ds ++ after))
      else value_of (c ∷ cs, d ∷ ds) after (from_equals (d ∷ ds))

  -- The last part may also be empty, or a name without a value; such a name is dropped.
  abbrev pub last_of : List ℕ → List ℕ × Option (List ℕ) → List ℕ → Ending
  last_of part (n, some (d ∷ ds)) after = pair_of part (n, some (d ∷ ds)) after
  last_of part ([], some []) after = bad_name_start [] (part ++ after)
  last_of part (c ∷ cs, some []) after = stored []
  last_of part (n, none) after = stored []

  abbrev pub pairs : List ℕ → List ℕ → List Part → Ending
  pairs part after [] = last_of part (cut part) after
  pairs part after (next ∷ parts) =
      and_then (pair_of part (cut part) after) (pairs next.0 next.1 parts)

  -- What a text gives behind a prefix of its first part.
  abbrev pub after_prefix : List ℕ → List ℕ → Ending
  after_prefix prefix str = pairs (prefix ++ (split str).0.0) (split str).0.1 (split str).1

  abbrev pub form_pairs : List ℕ → Ending
  form_pairs str = after_prefix [] str

  pub after_prefix-next :
      (c : ℕ) (prefix str : List ℕ)
      → (c == 38) ≡ false
      → after_prefix prefix (c ∷ str) ≡ after_prefix (prefix ++ c ∷ []) str
  after_prefix-next c prefix str h = rw (h, append_assoc prefix (c ∷ []) (split str).0.0) refl

  pub pairs-name :
      (n after : List ℕ) (parts : List Part) (next : Part)
      → IsPart n
      → (pairs n after [] ≡ stored []) × (pairs n after (next ∷ parts) ≡ bad_name [] after)
  pairs-name (c ∷ cs) after parts next h = rw (cut-name (c ∷ cs) h) (refl, refl)
  pairs-name [] after parts next h = absurd h

  pub pairs-no_value :
      (n after : List ℕ) (parts : List Part) (next : Part)
      → IsPart n
      → (pairs (n ++ 61 ∷ []) after [] ≡ stored [])
        × (pairs (n ++ 61 ∷ []) after (next ∷ parts) ≡ bad_value_start [] after)
  pairs-no_value (c ∷ cs) after parts next h = rw (cut-pair (c ∷ cs) [] h) (refl, refl)
  pairs-no_value [] after parts next h = absurd h

  pub pairs-pair :
      (n v after : List ℕ) (parts : List Part) (next : Part)
      → IsPart n
      → IsPart v
      → (pairs (n ++ 61 ∷ v) after [] ≡ stored (decoded n v after ∷ []))
        × (pairs (n ++ 61 ∷ v) after (next ∷ parts)
            ≡ behind (decoded n v after ∷ []) (pairs next.0 next.1 parts))
  pairs-pair (c ∷ cs) (d ∷ ds) after parts next h k =
      let first : (d == 61) ≡ false = ground arith in
      let rest : no_equals ds ≡ true = ground arith in
      rw (cut-pair (c ∷ cs) (d ∷ ds) h, first, from_equals-none ds rest) (refl, refl)
  pairs-pair [] v after parts next h k = absurd h
  pairs-pair (c ∷ cs) [] after parts next h k = absurd k

  -- An '=' where a value begins.
  pub pairs-value_start :
      (n ds after : List ℕ) (parts : List Part)
      → IsPart n
      → pairs (n ++ 61 ∷ 61 ∷ ds) after parts ≡ bad_value_start [] (61 ∷ (ds ++ after))
  pairs-value_start (c ∷ cs) ds after [] h = rw (cut-pair (c ∷ cs) (61 ∷ ds) h) refl
  pairs-value_start (c ∷ cs) ds after (next ∷ parts) h = rw (cut-pair (c ∷ cs) (61 ∷ ds) h) refl
  pairs-value_start [] ds after parts h = absurd h

  -- An '=' in a value.
  pub pairs-second :
      (n v ds after : List ℕ) (parts : List Part)
      → IsPart n
      → IsPart v
      → pairs (n ++ 61 ∷ (v ++ 61 ∷ ds)) after parts ≡ bad_value [] (61 ∷ (ds ++ after))
  pairs-second (c ∷ cs) (d ∷ v) ds after parts h k =
      let first : (d == 61) ≡ false = ground arith in
      let rest : no_equals v ≡ true = ground arith in
      second (cut-pair (c ∷ cs) (d ∷ (v ++ 61 ∷ ds)) h) first (from_equals-second v ds rest) parts
    where
      second :
          cut (c ∷ (cs ++ 61 ∷ d ∷ (v ++ 61 ∷ ds))) ≡ (c ∷ cs, some (d ∷ (v ++ 61 ∷ ds)))
          → (d == 61) ≡ false
          → from_equals (v ++ 61 ∷ ds) ≡ some (61 ∷ ds)
          → (parts : List Part)
          → pairs (c ∷ (cs ++ 61 ∷ d ∷ (v ++ 61 ∷ ds))) after parts
            ≡ bad_value [] (61 ∷ (ds ++ after))
      second p q r [] = rw (p, q, r) refl
      second p q r (next ∷ parts) = rw (p, q, r) refl
  pairs-second [] v ds after parts h k = absurd h
  pairs-second (c ∷ cs) [] ds after parts h k = absurd k

  -- An '=' where a name begins.
  pub pairs-name_start :
      (part after : List ℕ) (parts : List Part)
      → pairs (61 ∷ part) after parts ≡ bad_name_start [] (61 ∷ (part ++ after))
  pairs-name_start [] after [] = refl
  pairs-name_start (c ∷ cs) after [] = refl
  pairs-name_start part after (p ∷ parts) = refl
