-- ===== src/Server/Overflow.antt =====
-- When the stack of `l_global` overflows with reads: `on_read` of src/luaw_tcp.c in a turn of the loop.
use luaw.Prelude.{
  ℕ, suc, ◌+◌, ◌*◌, ◌≤◌, ◌<◌, ◌≡◌, refl, ◌∙◌, Bool, true, false, List, [], ◌∷◌, Option, none, some,
  length, arith, if◌then◌else◌, ltb, Bool-cases, inl, inr,
}
use luaw.Prelude.Int.{pos, is_zero, eqb}
use luaw.Uv.{Uv}
use luaw.Tcp.{Connection}
use luaw.Server.Stack.{operate, operate_all, LoopCallback, at_read, stack_ops, all_ops, turn_ops}
use luaw.Server.Room.{operate_all-append}

module _ (uv : Uv) where
  open uv use {Handle, enobufs}

  -- Reads of connections with a waiting reader, each of at least one byte, with the calls succeeding.
  abbrev pub reads : List (ℕ × Connection Handle) → List (LoopCallback Handle)
  reads [] = []
  reads ((n, t) ∷ rs) = at_read (pos (suc n)) t true true ∷ reads rs

  abbrev pub AreReady : List (ℕ × Connection Handle) → Type 0
  AreReady [] = Unit {0}
  AreReady ((n, t) ∷ rs) =
      (t.handle_data ≡ true)
      × (is_zero t.lua_reader_tid ≡ false)
      × (eqb (pos (suc n)) enobufs ≡ false)
      × AreReady rs

  abbrev next_height : ℕ → Option ℕ
  next_height h = if ltb 20 (h + 4) then none else some (h + 2)

  read-height :
      (n : ℕ) (t : Connection Handle) (h : ℕ)
      → t.handle_data ≡ true
      → is_zero t.lua_reader_tid ≡ false
      → eqb (pos (suc n)) enobufs ≡ false
      → operate_all (stack_ops uv (at_read (pos (suc n)) t true true)) h ≡ next_height h
  unfolding stack_ops operate_all operate
  read-height n t h d r e = ground arith

  reads-height :
      (rs : List (ℕ × Connection Handle)) (h : ℕ)
      → AreReady rs
      → (h + 2 * length rs ≤ 18 → operate_all (all_ops uv (reads rs)) h ≡ some (h + 2 * length rs))
        × (0 < length rs → 18 < h + 2 * length rs → operate_all (all_ops uv (reads rs)) h ≡ none)
  unfolding operate_all all_ops
  reads-height [] h v = (λ l. ground arith, λ l. absurd (omega arith))
  reads-height ((n, t) ∷ rs) h (d, r, e, v) =
      let one = read-height n t h d r e in
      let split =
        operate_all-append (stack_ops uv (at_read (pos (suc n)) t true true))
          (all_ops uv (reads rs)) h in
      let (fits, over) = reads-height rs (h + 2) v in
      (
        λ l. split ∙ rw one (ground (arith, fits (omega arith))),
        λ l m.
            split
            ∙ rw one (elim (Bool-cases (ltb 20 (h + 4))) [
              | inl full ↦ rw full refl
              | inr room ↦ rw room (over (ground arith) (ground arith))
            ]),
      )

  -- Let the callbacks of a turn be reads of at least one byte, each for a thread that waits, with all calls
  -- succeeding, and let a slot be free at the turn's start. Each read leaves two slots taken, and up to nine
  -- reads have room; with ten or more, values are pushed outside the slots that Lua promises.
  pub reads-overflow :
      (ok : Bool) (rs : List (ℕ × Connection Handle)) (h : ℕ)
      → h < 20
      → AreReady rs
      → (length rs ≤ 9 → operate_all (turn_ops uv ok (reads rs)) h ≡ some (2 * length rs))
        × (9 < length rs → operate_all (turn_ops uv ok (reads rs)) h ≡ none)
  unfolding turn_ops operate_all operate
  reads-overflow ok rs h l v =
      let (fits, over) = reads-height rs 0 v in
      (
        λ m. let e = fits (omega arith) in ground arith,
        λ m. let e = over (omega arith) (omega arith) in ground arith,
      )
