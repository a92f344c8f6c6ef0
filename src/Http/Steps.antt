-- ===== src/Http/Steps.antt =====
-- The steps of the loop of `luaw_url_decode` (src/luaw_http_parser.c) on a byte that is neither '&' nor
-- '=', and what the loop is to make of a text in each of its states.
use luaw.Prelude.{
  ℕ, ◌≡◌, ap, subst, true, false, List, [], ◌∷◌, ◌++◌, Option, ◌==◌, arith, Bool-cases, inl, inr,
}
use mathlib.Core.List.{append_assoc}
use luaw.Http.UrlDecode.{
  DecoderState, starting_name, in_name, starting_value, in_value, Decoder, Ending, stored,
  bad_name_start, bad_name, bad_value_start, bad_value, empty_name, missing_store, decode_hex_str,
  handle_name_value_pair, decode_step, decode_loop,
}
use luaw.Http.Params.{has_escape, has_escape-append}
use luaw.Http.Splits.{
  space, spaces, spaces-append, form_pairs, decoded, no_equals-append, behind, after_prefix, IsPart,
}

module _ (scan : List ℕ → Option ℕ) (junk : ℕ) where
  -- How the program decodes a name or a value.
  abbrev pub decode : List ℕ → List ℕ → List ℕ
  decode = decode_hex_str scan true junk

  abbrev pub Pairs : Type 0
  Pairs = List (List ℕ × List ℕ)

  abbrev pub outcome : List ℕ → Decoder → Ending
  outcome = decode_loop scan true junk

  -- In a state, with the name and the value read so far.
  abbrev pub at : DecoderState → List ℕ → List ℕ → Pairs → Decoder
  at ds n v ps = record {
    ds = ds;
    name = spaces n;
    hex_name = has_escape (spaces n);
    value = spaces v;
    hex_value = has_escape (spaces v);
    params = ps;
  }

  -- What the loop makes of the rest of a text in each of its states.
  abbrev pub Naming : List ℕ → Type 0
  Naming str =
      (n : List ℕ) (ps : Pairs)
      → IsPart n
      → outcome str (at in_name n [] ps) ≡ behind ps (after_prefix decode n str)

  abbrev pub Starting : List ℕ → Type 0
  Starting str =
      (n : List ℕ) (ps : Pairs)
      → IsPart n
      → outcome str (at starting_value n [] ps) ≡ behind ps (after_prefix decode (n ++ 61 ∷ []) str)

  abbrev pub Valuing : List ℕ → Type 0
  Valuing str =
      (n v : List ℕ) (ps : Pairs)
      → IsPart n
      → IsPart v
      → outcome str (at in_value n v ps) ≡ behind ps (after_prefix decode (n ++ 61 ∷ v) str)

  abbrev pub Pending : List ℕ → Type 0
  Pending str =
      (n v : List ℕ) (ps : Pairs)
      → IsPart n
      → IsPart v
      → outcome str (at starting_name n v ps)
        ≡ behind (ps ++ decoded decode n v (38 ∷ str) ∷ []) (form_pairs decode str)

  abbrev pub Fresh : List ℕ → Type 0
  Fresh str =
      (ps : Pairs) → outcome str (at starting_name [] [] ps) ≡ behind ps (form_pairs decode str)

  pub IsPart-snoc : (n : List ℕ) (c : ℕ) → IsPart n → (c == 61) ≡ false → IsPart (n ++ c ∷ [])
  IsPart-snoc (d ∷ ds) c h k = ground (arith, no_equals-append (d ∷ ds) (c ∷ []))
  IsPart-snoc [] c h k = absurd h

  pub IsPart-one : (c : ℕ) → (c == 61) ≡ false → IsPart (c ∷ [])
  IsPart-one c h = ground arith

  pub behind-behind :
      (ps : Pairs) (p : List ℕ × List ℕ) (e : Ending)
      → behind (ps ++ p ∷ []) e ≡ behind ps (behind (p ∷ []) e)
  behind-behind ps p (stored qs) = ap stored (append_assoc ps (p ∷ []) qs)
  behind-behind ps p (bad_name_start qs x) =
      ap (λ rs. bad_name_start rs x) (append_assoc ps (p ∷ []) qs)
  behind-behind ps p (bad_name qs x) = ap (λ rs. bad_name rs x) (append_assoc ps (p ∷ []) qs)
  behind-behind ps p (bad_value_start qs x) =
      ap (λ rs. bad_value_start rs x) (append_assoc ps (p ∷ []) qs)
  behind-behind ps p (bad_value qs x) = ap (λ rs. bad_value rs x) (append_assoc ps (p ∷ []) qs)
  behind-behind ps p (empty_name qs x) = ap (λ rs. empty_name rs x) (append_assoc ps (p ∷ []) qs)
  behind-behind ps p (missing_store qs) = ap missing_store (append_assoc ps (p ∷ []) qs)

  -- A byte is '&', '=' or another one.
  pub by_byte :
      (P : ℕ → Type 0)
      → P 38
      → P 61
      → ((c : ℕ) → (c == 38) ≡ false → (c == 61) ≡ false → P c)
      → (c : ℕ) → P c
  by_byte P amp equals plain c = elim (Bool-cases (c == 38)) [
    | inl h ↦ subst P (same 38 c h) amp
    | inr h ↦ elim (Bool-cases (c == 61)) [
      | inl k ↦ subst P (same 61 c k) equals
      | inr k ↦ plain c h k
    ]
  ]
    where
      same : (m n : ℕ) → (n == m) ≡ true → m ≡ n
      same m n h = ground arith

  -- A step of the loop on another byte, in each state.
  module _ (c : ℕ) (str n v : List ℕ) (ps : Pairs) (amp : (c == 38) ≡ false)
      (equals : (c == 61) ≡ false) where
    pub in_name-plain :
        outcome (c ∷ str) (at in_name n [] ps) ≡ outcome str (at in_name (n ++ c ∷ []) [] ps)
    unfolding decode_loop decode_step
    in_name-plain =
        rw (spaces-append n (c ∷ [])) (ground (arith, has_escape-append (spaces n) (space c ∷ [])))

    pub starting_value-plain :
        outcome (c ∷ str) (at starting_value n [] ps) ≡ outcome str (at in_value n (c ∷ []) ps)
    unfolding decode_loop decode_step
    starting_value-plain = ground arith

    pub in_value-plain :
        outcome (c ∷ str) (at in_value n v ps) ≡ outcome str (at in_value n (v ++ c ∷ []) ps)
    unfolding decode_loop decode_step
    in_value-plain =
        rw (spaces-append v (c ∷ [])) (ground (arith, has_escape-append (spaces v) (space c ∷ [])))

    pub starting_name-empty :
        outcome (c ∷ str) (at starting_name [] [] ps) ≡ outcome str (at in_name (c ∷ []) [] ps)
    unfolding decode_loop decode_step handle_name_value_pair
    starting_name-empty = ground arith
