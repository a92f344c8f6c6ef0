-- ===== src/Http/Stores.antt =====
-- `luaw_url_decode` of src/luaw_http_parser.c where `storeHttpParam` is no function, against its run where it
-- is one.
use luaw.Prelude.{
  ℕ, ◌≡◌, refl, Bool, true, false, List, [], ◌∷◌, ◌++◌, Option, ◌⊎◌, inl, inr, if◌then◌else◌, ◌&&◌,
  length, ltb, arith, Bool-cases,
}
use luaw.Http.UrlDecode.{
  DecoderState, starting_name, in_name, starting_value, in_value, Decoder, Ending, stored,
  bad_name_start, bad_name, bad_value_start, bad_value, empty_name, missing_store, Next, goes, ends,
  handle_name_value_pair, then_start_name, last_pair, behind_last, decode_step, decode_loop,
  luaw_url_decode,
}

abbrev pub is_empty : List (List ℕ × List ℕ) → Bool
is_empty [] = true
is_empty (p ∷ ps) = false

abbrev pub stored_by : Ending → List (List ℕ × List ℕ)
stored_by (stored ps) = ps
stored_by (bad_name_start ps place) = ps
stored_by (bad_name ps place) = ps
stored_by (bad_value_start ps place) = ps
stored_by (bad_value ps place) = ps
stored_by (empty_name ps place) = ps
stored_by (missing_store ps) = ps

-- With nothing to store a pair with, the first pair to be stored is an error.
abbrev pub without_store : Ending → Ending
without_store e = if is_empty (stored_by e) then e else missing_store []

is_empty-snoc :
    (ps : List (List ℕ × List ℕ)) (p : List ℕ × List ℕ) → is_empty (ps ++ p ∷ []) ≡ false
is_empty-snoc [] p = refl
is_empty-snoc (q ∷ qs) p = refl

module _ (scan : List ℕ → Option ℕ) (junk : ℕ) where
  -- Whether no pair was stored, behind a step.
  abbrev none_stored : Next → Bool
  none_stored (goes s) = is_empty s.params
  none_stored (ends e) = is_empty (stored_by e)

  handle-none_stored :
      (s : Decoder) (after : List ℕ)
      → is_empty s.params ≡ false
      → none_stored (handle_name_value_pair scan true junk s after) ≡ false
  unfolding handle_name_value_pair
  handle-none_stored s after h = ground (arith, is_empty-snoc s.params)

  start-none_stored :
      (ch : ℕ) (rest : List ℕ) (n : Next)
      → none_stored n ≡ false
      → none_stored (then_start_name scan true junk ch rest n) ≡ false
  start-none_stored ch rest (goes s) h = ground arith
  start-none_stored ch rest (ends e) h = h

  step-none_stored :
      (ds : DecoderState) (ch : ℕ) (rest : List ℕ) (s : Decoder)
      → is_empty s.params ≡ false
      → none_stored (decode_step scan true junk ds ch rest s) ≡ false
  unfolding decode_step
  step-none_stored starting_name ch rest s h =
      start-none_stored ch rest (handle_name_value_pair scan true junk s (38 ∷ ch ∷ rest))
        (handle-none_stored s (38 ∷ ch ∷ rest) h)
  step-none_stored in_name ch rest s h = ground arith
  step-none_stored starting_value ch rest s h = ground arith
  step-none_stored in_value ch rest s h = ground arith

  last-none_stored :
      (n : Next) → none_stored n ≡ false → is_empty (stored_by (last_pair scan true junk n)) ≡ false
  last-none_stored (goes s) h = h
  last-none_stored (ends e) h = h

  -- Pairs that are stored stay stored.
  loop-none_stored :
      (str : List ℕ) (s : Decoder)
      → is_empty s.params ≡ false
      → is_empty (stored_by (decode_loop scan true junk str s)) ≡ false
  unfolding decode_loop
  loop-none_stored [] s h =
      last-none_stored (handle_name_value_pair scan true junk s (behind_last scan true junk s.ds))
        (handle-none_stored s (behind_last scan true junk s.ds) h)
  loop-none_stored (ch ∷ rest) s h =
      next (decode_step scan true junk s.ds ch rest s) refl (step-none_stored s.ds ch rest s h)
        (loop-none_stored rest)
    where
      next :
          (n : Next)
          → decode_step scan true junk s.ds ch rest s ≡ n
          → none_stored n ≡ false
          → ((s' : Decoder)
              → is_empty s'.params ≡ false
              → is_empty (stored_by (decode_loop scan true junk rest s')) ≡ false)
          → is_empty (stored_by (decode_loop scan true junk (ch ∷ rest) s)) ≡ false
      next (goes s') e k ih = rw (decode_loop, e) (ih s' k)
      next (ends x) e k ih = rw (decode_loop, e) k

  -- A step without and one with a store are the same if no pair is stored.
  abbrev Same : Next → Next → Type 0
  Same f t =
      ((f ≡ t) × (none_stored t ≡ true)) ⊎ ((f ≡ ends (missing_store [])) × (none_stored t ≡ false))

  handle-Same :
      (s : Decoder) (after : List ℕ)
      → s.params ≡ []
      → Same
          (handle_name_value_pair scan false junk s after)
          (handle_name_value_pair scan true junk s after)
  unfolding handle_name_value_pair
  handle-Same s after h = elim (Bool-cases (ltb 0 (length s.name) && ltb 0 (length s.value))) [
    | inl e ↦ inr (ground arith, ground (arith, is_empty-snoc s.params))
    | inr e ↦ inl (ground arith, ground arith)
  ]

  start-Same :
      (ch : ℕ) (rest : List ℕ) (f t : Next)
      → Same f t
      → Same (then_start_name scan false junk ch rest f) (then_start_name scan true junk ch rest t)
  start-Same ch rest f (goes s) (inl (e, k)) = inl (rw e refl, ground arith)
  start-Same ch rest f (ends x) (inl (e, k)) = inl (rw e refl, k)
  start-Same ch rest f (goes s) (inr (e, k)) = inr (rw e refl, ground arith)
  start-Same ch rest f (ends x) (inr (e, k)) = inr (rw e refl, k)

  step-Same :
      (ds : DecoderState) (ch : ℕ) (rest : List ℕ) (s : Decoder)
      → s.params ≡ []
      → Same (decode_step scan false junk ds ch rest s) (decode_step scan true junk ds ch rest s)
  unfolding decode_step
  step-Same starting_name ch rest s h =
      start-Same ch rest (handle_name_value_pair scan false junk s (38 ∷ ch ∷ rest))
        (handle_name_value_pair scan true junk s (38 ∷ ch ∷ rest))
        (handle-Same s (38 ∷ ch ∷ rest) h)
  step-Same in_name ch rest s h = inl (refl, ground arith)
  step-Same starting_value ch rest s h = inl (refl, ground arith)
  step-Same in_value ch rest s h = inl (refl, ground arith)

  last-Same :
      (f t : Next)
      → Same f t
      → last_pair scan false junk f ≡ without_store (last_pair scan true junk t)
  last-Same f (goes s) (inl (e, k)) = rw (e, k) refl
  last-Same f (ends x) (inl (e, k)) = rw (e, k) refl
  last-Same f (goes s) (inr (e, k)) = rw (e, k) refl
  last-Same f (ends x) (inr (e, k)) = rw (e, k) refl

  is_empty-nil : (ps : List (List ℕ × List ℕ)) → is_empty ps ≡ true → ps ≡ []
  is_empty-nil [] h = refl
  is_empty-nil (p ∷ ps) h = absurd (cc)

  loop-without_store :
      (str : List ℕ) (s : Decoder)
      → s.params ≡ []
      → decode_loop scan false junk str s ≡ without_store (decode_loop scan true junk str s)
  unfolding decode_loop
  loop-without_store [] s h =
      last-Same (handle_name_value_pair scan false junk s (behind_last scan true junk s.ds))
        (handle_name_value_pair scan true junk s (behind_last scan true junk s.ds))
        (handle-Same s (behind_last scan true junk s.ds) h)
  loop-without_store (ch ∷ rest) s h =
      next (decode_step scan true junk s.ds ch rest s) refl (step-Same s.ds ch rest s h)
        (loop-without_store rest)
    where
      next :
          (t : Next)
          → decode_step scan true junk s.ds ch rest s ≡ t
          → Same (decode_step scan false junk s.ds ch rest s) t
          → ((s' : Decoder)
              → s'.params ≡ []
              → decode_loop scan false junk rest s'
                ≡ without_store (decode_loop scan true junk rest s'))
          → decode_loop scan false junk (ch ∷ rest) s
            ≡ without_store (decode_loop scan true junk (ch ∷ rest) s)
      next (goes s') q (inl (e, k)) ih = rw (decode_loop, q, e) (ih s' (is_empty-nil s'.params k))
      next (ends x) q (inl (e, k)) ih = rw (decode_loop, q, e, k) refl
      next (goes s') q (inr (e, k)) ih = rw (decode_loop, q, e, loop-none_stored rest s' k) refl
      next (ends x) q (inr (e, k)) ih = rw (decode_loop, q, e, k) refl

  -- Where `storeHttpParam` is no function, the first pair to be stored raises an error, and what ends before
  -- it ends as it would otherwise.
  pub luaw_url_decode-without_store :
      (str : List ℕ)
      → luaw_url_decode scan false junk str ≡ without_store (luaw_url_decode scan true junk str)
  unfolding luaw_url_decode
  luaw_url_decode-without_store str = loop-without_store str _ refl
