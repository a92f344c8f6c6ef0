-- ===== src/Tcp/Reentrant/Flat.antt =====
-- Histories of a connection without calls inside calls, as functions and as steps.
use luaw.Prelude.{
  ◌≡◌, ◌++◌, refl, true, false, List, [], ◌∷◌, Option, none, some, arith, Bool-cases, inl, inr, ◌∙◌,
}
use luaw.Lua.{Value}
use luaw.Uv.{Uv}
use luaw.Tcp.{World}
use luaw.Tcp.Run.{
  System, Event, step, run, execute, is_enabled, advance, Step, Reach, does, here, next,
}
use luaw.Tcp.Safety.{Inv, Step-Inv, Inv-no_fault}
use luaw.Tcp.Run.{Reach-trans}

module _ (uv : Uv) where
  open uv use {Handle}

  pub step-enabled :
      (e : Event) (s : System Handle) (w : World Handle) (r : List Value)
      → is_enabled uv e s ≡ true
      → execute uv e s.world ≡ some (w, r)
      → step uv e s ≡ some (advance uv e s w r)
  unfolding step
  step-enabled e s w r h p = rw (h, p) refl

  pub step-disabled :
      (e : Event) (s : System Handle) → is_enabled uv e s ≡ false → step uv e s ≡ some s
  unfolding step
  step-disabled e s h = rw h refl

  pub run-next :
      (e : Event) (es : List Event) (s t : System Handle)
      → step uv e s ≡ some t
      → run uv (e ∷ es) s ≡ run uv es t
  unfolding run
  run-next e es s t p = rw (p, run) refl

  -- Events that may happen in a state of the invariant are steps, and no one faults.
  pub run-Reach :
      (es : List Event) (s : System Handle)
      → Inv uv s
      → (t : System Handle) × (run uv es s ≡ some t) × Reach uv s t
  run-Reach [] s v = (s, unfold run in refl, here)
  run-Reach (e ∷ es) s v = elim (Bool-cases (is_enabled uv e s)) [
    | inr h ↦
        let (t, p, reach) = run-Reach es s v in
        (t, run-next e es s s (step-disabled e s h) ∙ p, reach)
    | inl h ↦
        let (w, r, p) = Inv-no_fault uv s e v h in
        let u = advance uv e s w r in
        let st : Step uv s u = does e w r h p refl in
        let (t, q, reach) = run-Reach es u (Step-Inv uv st v) in
        (t, run-next e es s u (step-enabled e s w r h p) ∙ q, Reach-trans uv (next here st) reach)
  ]

  pub run-++ :
      (es fs : List Event) (s t : System Handle)
      → run uv es s ≡ some t
      → run uv (es ++ fs) s ≡ run uv fs t
  unfolding run
  run-++ [] fs s t p = ground arith
  run-++ (e ∷ es) fs s t p = rest (step uv e s) p (λ u. run-++ es fs u t)
    where
      rest :
          (o : Option (System Handle))
          → elim o [ none ↦ none | some u ↦ run uv es u ] ≡ some t
          → ((u : System Handle) → run uv es u ≡ some t → run uv (es ++ fs) u ≡ run uv fs t)
          → elim o [ none ↦ none | some u ↦ run uv (es ++ fs) u ] ≡ run uv fs t
      rest none p same = absurd (cc)
      rest (some u) p same = same u p
