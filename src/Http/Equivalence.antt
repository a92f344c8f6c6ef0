-- ===== src/Http/Equivalence.antt =====
-- `luaw_url_decode` of src/luaw_http_parser.c agrees with the description in Http.Splits.
use luaw.Prelude.{ℕ, ◌≡◌, refl, sym, ap, ◌∙◌, Bool, true, false, List, [], ◌∷◌, ◌++◌, Option, arith}
use mathlib.Core.List.{append-nil}
use luaw.Http.UrlDecode.{
  DecoderState, Ending, stored, bad_name_start, goes, starting_name, in_name, starting_value,
  in_value, decode_hex_str, handle_name_value_pair, behind_last, decode_step, decode_loop,
  luaw_url_decode,
}
use luaw.Http.Params.{decode_if-has_escape}
use luaw.Http.Splits.{
  spaces, form_pairs, decoded, behind, IsPart, pairs-name, pairs-no_value, pairs-pair,
}
use luaw.Http.Stores.{without_store, luaw_url_decode-without_store}
use luaw.Http.Steps.{Pairs, decode, outcome, at, Naming, Starting, Valuing, Pending, Fresh}
use luaw.Http.Bytes.{Fresh-next, Naming-next, Starting-next, Valuing-next}

module _ (scan : List ℕ → Option ℕ) (junk : ℕ) where
  -- A complete pair is stored, decoded, and nothing else changes.
  handled :
      (ds : DecoderState) (n v after : List ℕ) (ps : Pairs scan junk)
      → IsPart n
      → IsPart v
      → handle_name_value_pair scan true junk (at scan junk ds n v ps) after
        ≡ goes (record (at scan junk ds n v ps) {
          params = ps ++ decoded (decode scan junk) n v after ∷ [];
        })
  unfolding handle_name_value_pair
  handled ds (b ∷ n) (d ∷ v) after ps h k =
      let name = decode_if-has_escape scan junk (spaces (b ∷ n)) (61 ∷ (spaces (d ∷ v) ++ after)) in
      let value = decode_if-has_escape scan junk (spaces (d ∷ v)) after in ground arith
  handled ds [] v after ps h k = absurd h
  handled ds (b ∷ n) [] after ps h k = absurd k

  -- A complete pair is stored when the next byte is read, or at the end.
  pending-stored :
      (c : ℕ) (str n v : List ℕ) (ps : Pairs scan junk)
      → IsPart n
      → IsPart v
      → outcome scan junk (c ∷ str) (at scan junk starting_name n v ps)
        ≡ outcome scan junk (c ∷ str) (
            at scan junk starting_name [] []
              (ps ++ decoded (decode scan junk) n v (38 ∷ c ∷ str) ∷ []))
  unfolding decode_loop decode_step
  pending-stored c str n v ps h k =
      let handled_now = handled starting_name n v (38 ∷ c ∷ str) ps h k in
      rw (handled_now, decode_loop, decode_step) (unfold handle_name_value_pair in refl)

  -- At the end of the text a name without a value is dropped, and a pair is stored.
  end-name :
      (ds : DecoderState) (n : List ℕ) (ps : Pairs scan junk)
      → IsPart n
      → outcome scan junk [] (at scan junk ds n [] ps) ≡ stored ps
  unfolding decode_loop handle_name_value_pair
  end-name ds (c ∷ cs) ps h = ground arith
  end-name ds [] ps h = absurd h

  end-pair :
      (ds : DecoderState) (n v : List ℕ) (ps : Pairs scan junk)
      → IsPart n
      → IsPart v
      → outcome scan junk [] (at scan junk ds n v ps)
        ≡ stored (ps ++ decoded (decode scan junk) n v (behind_last scan true junk ds) ∷ [])
  unfolding decode_loop
  end-pair ds n v ps h k =
      rw (handled ds n v (behind_last scan true junk ds) ps h k, decode_loop) refl

  Naming-nil : Naming scan junk []
  Naming-nil n ps h =
      rw (append-nil n, (pairs-name (decode scan junk) n [] [] ([], []) h).0)
        (end-name in_name n ps h ∙ ap stored (sym (append-nil ps)))

  Starting-nil : Starting scan junk []
  Starting-nil n ps h =
      rw (append-nil (n ++ 61 ∷ []), (pairs-no_value (decode scan junk) n [] [] ([], []) h).0)
        (end-name starting_value n ps h ∙ ap stored (sym (append-nil ps)))

  Valuing-nil : Valuing scan junk []
  Valuing-nil n v ps h k =
      rw (append-nil (n ++ 61 ∷ v), (pairs-pair (decode scan junk) n v [] [] ([], []) h k).0)
        (end-pair in_value n v ps h k)

  Pending-nil : Pending scan junk []
  Pending-nil n v ps h k =
      end-pair starting_name n v ps h k
      ∙ ap stored (sym (append-nil (ps ++ decoded (decode scan junk) n v (38 ∷ []) ∷ [])))

  Fresh-nil : Fresh scan junk []
  unfolding decode_loop handle_name_value_pair
  Fresh-nil ps = ap stored (sym (append-nil ps))

  states :
      (str : List ℕ)
      → Naming scan junk str
        × Starting scan junk str
        × Valuing scan junk str
        × Pending scan junk str
        × Fresh scan junk str
  states [] = (Naming-nil, Starting-nil, Valuing-nil, Pending-nil, Fresh-nil)
  states (c ∷ str) =
      let (naming, starting, valuing, pending, fresh) = states str in
      let next = Fresh-next scan junk str naming c in
      (
        Naming-next scan junk str naming starting c,
        Starting-next scan junk str valuing c,
        Valuing-next scan junk str valuing pending c,
        λ n v ps k l.
            pending-stored c str n v ps k l
            ∙ next (ps ++ decoded (decode scan junk) n v (38 ∷ c ∷ str) ∷ []),
        next,
      )

  behind-nil : (e : Ending) → behind [] e ≡ e
  behind-nil (stored ps) = refl
  behind-nil (bad_name_start qs x) = refl
  behind-nil _ = refl

  -- How a text ends, with `storeHttpParam` a function or not.
  abbrev pub form_ending : Bool → List ℕ → Ending
  form_ending true str = form_pairs (decode_hex_str scan true junk) str
  form_ending false str = without_store (form_pairs (decode_hex_str scan true junk) str)

  stored-form_pairs :
      (str : List ℕ) → luaw_url_decode scan true junk str ≡ form_pairs (decode scan junk) str
  unfolding luaw_url_decode
  stored-form_pairs str =
      let (naming, starting, valuing, pending, fresh) = states str in
      fresh [] ∙ behind-nil (form_pairs (decode scan junk) str)

  -- For every text, and whatever `sscanf` reads, `luaw_url_decode` ends as the description says: with the
  -- pairs of the text stored in their order, each name and value decoded; or with an error that names the
  -- first place that is to blame, and the pairs of the parts before it stored. Where `storeHttpParam` is no
  -- function, it raises an error instead if there is a pair to store.
  pub luaw_url_decode-form_pairs :
      (store : Bool) (str : List ℕ) → luaw_url_decode scan store junk str ≡ form_ending store str
  luaw_url_decode-form_pairs true str = stored-form_pairs str
  luaw_url_decode-form_pairs false str =
      luaw_url_decode-without_store scan junk str ∙ ap without_store (stored-form_pairs str)
