-- ===== src/Lua.antt =====
-- src/luaw_common.c and src/luaw_common.h: what the C side hands to Lua, and the reference counts.
-- Lua itself is outside the repository: the values that it is given and the calls of its scheduler
-- are recorded, and what the Lua code does with them are later operations.
pub mod Script
use luaw.Prelude.{String, Bool, true, false, List, [], ◌∷◌, ℕ, Option, none, some, if◌then◌else◌}
use Prim.Native.String.{compare}
use Prim.Native.Nat.{Ordering}
use luaw.Prelude.Int.{ℤ, incr, decr, is_zero, is_nonpos}

-- What is pushed on a Lua stack. `strerror e` is the text of `uv_strerror(e)`, and `format` a text
-- with what its `%` places take.
pub data Value : Type 0 where
  nil : Value
  boolean : Bool → Value
  integer : ℤ → Value
  bytes : List ℕ → Value
  text : String → Value
  strerror : ℤ → Value
  format : String → Value → Value
  format2 : String → Value → Value → Value
  userdata : Value

-- A call of the scheduler's `resumeThreadId`: the thread and the two results that it is handed.
pub record Resume : Type 0 where
  pub tid : ℤ
  pub status : Bool
  pub result : Value

-- `resume_lua_thread(L, 3, 2, 0)` on the stack `fn, tid, status, result`: Lua is called only for a
-- thread id other than 0. The calls made so far stand newest first.
unfoldable pub resume_lua_thread : Resume → List Resume → List Resume
resume_lua_thread r calls = if is_zero r.tid then calls else r ∷ calls

-- `error_to_lua`: the stack is cleared, and a false status and the message are returned.
unfoldable pub error_to_lua : Value → List Value
error_to_lua message = boolean false ∷ message ∷ []

-- `INCR_REF_COUNT`, `DECR_REF_COUNT` on a count.
abbrev pub incr_ref : ℤ → ℤ
incr_ref = incr

abbrev pub decr_ref : ℤ → ℤ
decr_ref = decr

-- `GC_REF`: the object with its count lowered, or `none` where that frees it.
unfoldable pub gc_ref {ℓ} : {A : Type ℓ} → (ℤ → A) → ℤ → Option A
gc_ref with_count n = if is_nonpos (decr n) then none else some (with_count (decr n))

abbrev pub same_key : String → String → Bool
same_key k k' = elim (compare k k') [ Ordering.eq ↦ true | _ ↦ false ]

-- A table by its string keys, the newest first: `lua_setfield` and `lua_getfield`.
module _ {A : Type 0} where
  abbrev pub set_field : String → A → List (String × A) → List (String × A)
  set_field key a t = (key, a) ∷ t

  abbrev pub get_field : String → List (String × A) → Option A
  get_field key [] = none
  get_field key ((k, a) ∷ t) = if same_key key k then some a else get_field key t
