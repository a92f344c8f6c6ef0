-- ===== src/Lua/Script.antt =====
-- `resume_lua_thread` of src/luaw_common.c runs the resumed thread before it returns, and that thread
-- may call the operation's own object again: C functions as far as the next such call, and the calls
-- that are made meanwhile.
use luaw.Prelude.{◌≡◌, refl, List, [], ◌∷◌, Option, none, some}

-- A C function: it returns a result, it runs a Lua thread and goes on in the world that the thread
-- leaves, or it reads freed memory.
pub data Script (W R : Type 0) : Type 0 where
  returned : W → R → Script W R
  resuming : W → (W → Script W R) → Script W R
  fault : Script W R

-- Calls of methods, one after the other; each has the calls that are made by the first and by the
-- second thread that it resumes.
pub data Calls (M : Type 0) : Type 0 where
  done : Calls M
  call : M → Calls M → Calls M → Calls M → Calls M

-- A state `S` has a world, which a script reads and writes.
module _ {W R S : Type 0} (world : S → W) (put : W → S → S) where
  -- Runs a script; each thread that it resumes does what is next in the list.
  unfoldable pub finish : List (S → Option S) → Script W R → S → Option (S × R)
  finish fs fault s = none
  finish fs (returned w r) s = some (put w s, r)
  finish [] (resuming w k) s = finish [] (k w) (put w s)
  finish (f ∷ fs) (resuming w k) s = elim (f (put w s)) [
    | none ↦ none
    | some t ↦ finish fs (k (world t)) t
  ]

-- What the two threads do that a call may resume.
abbrev pub meanwhile : {S : Type 0} → (S → Option S) → (S → Option S) → List (S → Option S)
meanwhile f g = f ∷ g ∷ []

module _ {M S : Type 0} (perform : M → List (S → Option S) → S → Option S) where
  unfoldable pub nested : Calls M → S → Option S
  nested done s = some s
  nested (call m first second after) s =
      elim (perform m (meanwhile (λ t. nested first t) (λ t. nested second t)) s) [
        | none ↦ none
        | some t ↦ nested after t
      ]

  pub nested-fixed :
      (s : S)
      → ((m : M) (fs : List (S → Option S)) → perform m fs s ≡ some s)
      → (ks : Calls M) → nested ks s ≡ some s
  unfolding nested
  nested-fixed s h done = refl
  nested-fixed s h (call m first second after) =
      rw (h m (meanwhile (λ t. nested first t) (λ t. nested second t)), nested)
        (nested-fixed s h after)
