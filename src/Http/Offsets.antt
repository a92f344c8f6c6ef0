-- ===== src/Http/Offsets.antt =====
-- The offsets that `parse_http` of src/luaw_http_parser.c returns.
use luaw.Prelude.{
  ℕ, zero, suc, ◌+◌, ◌≤◌, ◌<◌, ◌≡◌, refl, true, false, List, [], ◌∷◌, length, drop, ltb, arith,
}
use luaw.Prelude.Int.{pos}
use luaw.Http.Parser.{
  HttpParser, HttpCb, Callback, LhttpParser, IsHttpParser, handle_all, handle_all-last,
  handle_http_callback, after_execute, after_execute-Delivers, Delivers, parse_at, parse_http,
}

-- Before the end of a buffer there is a byte.
drop-cons :
    (k : ℕ) (buff : List ℕ)
    → k < length buff
    → (c : ℕ) × (cs : List ℕ) × (drop k buff ≡ c ∷ cs) × (k + length (c ∷ cs) ≡ length buff)
drop-cons k [] h = absurd (omega arith)
drop-cons zero (c ∷ cs) h = (c, cs, refl, omega arith)
drop-cons (suc k) (c ∷ cs) h =
    let (d, ds, e, l) = drop-cons k cs (omega arith) in (d, ds, e, omega arith)

module _ (hp : HttpParser) (is : IsHttpParser hp) where
  open hp use {State, pause, failed, is_paused}

  run-Delivers :
      (p : LhttpParser hp) (cs : List Callback) (k len offset : ℕ)
      → k ≤ offset
      → offset ≤ len
      → (offset ≡ len → failed p.parser ≡ false)
      → ((c : Callback) (cs' : List Callback) → cs ≡ c ∷ cs' → failed p.parser ≡ false)
      → Delivers hp k len (after_execute hp (handle_all hp p cs) len offset)
  run-Delivers p [] k len offset l m e h =
      after_execute-Delivers hp p k len offset l m (is.paused_runs p.parser) e
  run-Delivers p (c ∷ cs) k len offset l m e h =
      let ok = h c cs refl in
      let (d, q, g) = handle_all-last hp is p c cs ok in
      let runs = is.paused_runs (pause true p.parser) (is.pause_stops p.parser ok) in
      rw g (
        after_execute-Delivers hp (handle_http_callback hp p d) k len offset l m
          (unfold handle_http_callback in λ _. runs) (unfold handle_http_callback in λ _. runs))

  -- Let http_parser keep what it promises. Then, at an offset before the buffer's end, `parse_http` returns
  -- two to seven results, and an offset among them lies between the one given and the end.
  pub parse_http-Delivers :
      (p : LhttpParser hp) (buff : List ℕ) (k : ℕ)
      → k < length buff
      → Delivers hp k (length buff) (parse_http hp p buff (pos k))
  unfolding parse_http parse_at
  parse_http-Delivers p buff k h =
      let inside : ltb (length buff) k ≡ false = ground arith in
      let (c, cs, e, l) = drop-cons k buff h in
      let fits = is.execute_fits p.parser c cs in
      let all = is.execute_all p.parser c cs in
      rw (inside, e)
        (run-Delivers
          (record p { parser = (hp.execute p.parser (c ∷ cs)).0; http_cb = HttpCb.none_made })
          (hp.execute p.parser (c ∷ cs)).2 k (length buff) (k + (hp.execute p.parser (c ∷ cs)).1)
          (omega arith) (omega arith) (λ q. all (omega arith)) (is.execute_calls p.parser (c ∷ cs)))
