-- ===== src/Http/Bytes.antt =====
-- Each byte in the loop of `luaw_url_decode` (src/luaw_http_parser.c), in each of its states, against the
-- description in Http.Splits.
use luaw.Prelude.{ℕ, ◌≡◌, refl, sym, ap, ◌∙◌, false, List, [], ◌∷◌, ◌++◌, Option, ◌==◌}
use mathlib.Core.List.{append_assoc, append-nil}
use luaw.Http.UrlDecode.{handle_name_value_pair, decode_step, decode_loop}
use luaw.Http.Splits.{
  split, append-split, form_pairs, decoded, behind, after_prefix, after_prefix-next, pairs-name,
  pairs-no_value, pairs-pair, pairs-value_start, pairs-second, pairs-name_start,
}
use luaw.Http.Steps.{
  decode, Naming, Starting, Valuing, Pending, Fresh, IsPart-snoc, IsPart-one, behind-behind,
  by_byte, in_name-plain, starting_value-plain, in_value-plain, starting_name-empty,
}

module _ (scan : List ℕ → Option ℕ) (junk : ℕ) where
  pub Naming-next :
      (str : List ℕ)
      → Naming scan junk str
      → Starting scan junk str
      → (c : ℕ) → Naming scan junk (c ∷ str)
  Naming-next str go eq = by_byte scan junk (λ c. Naming scan junk (c ∷ str)) amp equals plain
    where
      amp : Naming scan junk (38 ∷ str)
      amp n ps h =
          unfold decode_loop decode_step in
          rw
            (
              append-nil n,
              (pairs-name (decode scan junk) n (38 ∷ str) (split str).1 (split str).0 h).1,
              append-nil ps,
            )
            refl

      equals : Naming scan junk (61 ∷ str)
      equals n ps h =
          unfold decode_loop decode_step in
          eq n ps h ∙ ap (behind ps) (sym (after_prefix-next (decode scan junk) 61 n str refl))

      plain : (c : ℕ) → (c == 38) ≡ false → (c == 61) ≡ false → Naming scan junk (c ∷ str)
      plain c a q n ps h =
          in_name-plain scan junk c str n [] ps a q
          ∙ go (n ++ c ∷ []) ps (IsPart-snoc scan junk n c h q)
          ∙ ap (behind ps) (sym (after_prefix-next (decode scan junk) c n str a))

  pub Starting-next :
      (str : List ℕ) → Valuing scan junk str → (c : ℕ) → Starting scan junk (c ∷ str)
  Starting-next str go = by_byte scan junk (λ c. Starting scan junk (c ∷ str)) amp equals plain
    where
      amp : Starting scan junk (38 ∷ str)
      amp n ps h =
          unfold decode_loop decode_step in
          rw
            (
              append-nil (n ++ 61 ∷ []),
              (pairs-no_value (decode scan junk) n (38 ∷ str) (split str).1 (split str).0 h).1,
              append-nil ps,
            )
            refl

      equals : Starting scan junk (61 ∷ str)
      equals n ps h =
          unfold decode_loop decode_step in
          rw
            (
              append_assoc n (61 ∷ []) (61 ∷ (split str).0.0),
              pairs-value_start (decode scan junk) n (split str).0.0 (split str).0.1 (split str).1
                  h,
              append-split str,
              append-nil ps,
            )
            refl

      plain : (c : ℕ) → (c == 38) ≡ false → (c == 61) ≡ false → Starting scan junk (c ∷ str)
      plain c a q n ps h =
          starting_value-plain scan junk c str n [] ps a q
          ∙ go n (c ∷ []) ps h (IsPart-one scan junk c q)
          ∙ ap (behind ps) (
              sym (
                after_prefix-next (decode scan junk) c (n ++ 61 ∷ []) str a
                ∙ ap (λ p. after_prefix (decode scan junk) p str)
                    (append_assoc n (61 ∷ []) (c ∷ []))))

  pub Valuing-next :
      (str : List ℕ)
      → Valuing scan junk str
      → Pending scan junk str
      → (c : ℕ) → Valuing scan junk (c ∷ str)
  Valuing-next str go pend = by_byte scan junk (λ c. Valuing scan junk (c ∷ str)) amp equals plain
    where
      amp : Valuing scan junk (38 ∷ str)
      amp n v ps h k =
          unfold decode_loop decode_step in
          pend n v ps h k
          ∙ rw
              (
                append-nil (n ++ 61 ∷ v),
                (pairs-pair (decode scan junk) n v (38 ∷ str) (split str).1 (split str).0 h k).1,
              )
              (behind-behind scan junk ps (decoded (decode scan junk) n v (38 ∷ str))
                (form_pairs (decode scan junk) str))

      equals : Valuing scan junk (61 ∷ str)
      equals n v ps h k =
          unfold decode_loop decode_step in
          rw
            (
              append_assoc n (61 ∷ v) (61 ∷ (split str).0.0),
              pairs-second (decode scan junk) n v (split str).0.0 (split str).0.1 (split str).1 h k,
              append-split str,
              append-nil ps,
            )
            refl

      plain : (c : ℕ) → (c == 38) ≡ false → (c == 61) ≡ false → Valuing scan junk (c ∷ str)
      plain c a q n v ps h k =
          in_value-plain scan junk c str n v ps a q
          ∙ go n (v ++ c ∷ []) ps h (IsPart-snoc scan junk v c k q)
          ∙ ap (behind ps) (
              sym (
                after_prefix-next (decode scan junk) c (n ++ 61 ∷ v) str a
                ∙ ap (λ p. after_prefix (decode scan junk) p str)
                    (append_assoc n (61 ∷ v) (c ∷ []))))

  pub Fresh-next : (str : List ℕ) → Naming scan junk str → (c : ℕ) → Fresh scan junk (c ∷ str)
  Fresh-next str go = by_byte scan junk (λ c. Fresh scan junk (c ∷ str)) amp equals plain
    where
      amp : Fresh scan junk (38 ∷ str)
      amp ps = unfold decode_loop decode_step handle_name_value_pair in rw (append-nil ps) refl

      equals : Fresh scan junk (61 ∷ str)
      equals ps =
          unfold decode_loop decode_step handle_name_value_pair in
          rw
            (
              pairs-name_start (decode scan junk) (split str).0.0 (split str).0.1 (split str).1,
              append-split str,
              append-nil ps,
            )
            refl

      plain : (c : ℕ) → (c == 38) ≡ false → (c == 61) ≡ false → Fresh scan junk (c ∷ str)
      plain c a q ps =
          starting_name-empty scan junk c str [] [] ps a q
          ∙ go (c ∷ []) ps (IsPart-one scan junk c q)
          ∙ ap (behind ps) (sym (after_prefix-next (decode scan junk) c [] str a))
