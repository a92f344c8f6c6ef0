-- ===== src/Uv.antt =====
-- libuv, which is no part of the repository: its handles, the calls that the program makes on them
-- as far as it can tell their results apart, and `close_if_active` of src/luaw_common.c.
use luaw.Prelude.{ℕ, List, String, Bool, true, false, ◌≡◌, if◌then◌else◌, Bool-cases, inl, inr}
use luaw.Prelude.Int.{ℤ}

-- The laws are libuv's documentation: a handle is closing once `uv_close` was called on it, no other
-- call closes it, and a handle that was just initialised is not closing.
-- A call that may fail has its return code beside it.
pub record Uv : Type 1 where
  pub Handle : Type 0
  pub fresh : Handle
  pub is_active : Handle → Bool
  pub is_closing : Handle → Bool
  pub close : Handle → Handle
  pub timer_start : Handle → ℤ → Handle
  pub timer_start_rc : Handle → ℤ → ℤ
  pub timer_stop : Handle → Handle
  pub read_start : Handle → Handle
  pub read_start_rc : Handle → ℤ
  pub write : Handle → List ℕ → Handle
  pub write_rc : Handle → List ℕ → ℤ
  pub ip4_addr_rc : String → ℤ → ℤ
  pub tcp_bind_rc : String → ℤ → ℤ
  pub listen_rc : String → ℤ → ℤ
  pub tcp_connect : Handle → String → ℤ → Handle
  pub tcp_connect_rc : Handle → String → ℤ → ℤ
  pub accept : Handle → Handle
  pub accept_rc : Handle → ℤ
  pub ecanceled : ℤ
  pub eof : ℤ
  pub enobufs : ℤ
  pub enomem : ℤ
  pub eai_badflags : ℤ
  pub fresh-is_closing : is_closing fresh ≡ false
  pub close-is_closing : (h : Handle) → is_closing (close h) ≡ true
  pub start-is_closing : (h : Handle) (n : ℤ) → is_closing (timer_start h n) ≡ is_closing h
  pub stop-is_closing : (h : Handle) → is_closing (timer_stop h) ≡ is_closing h
  pub read-is_closing : (h : Handle) → is_closing (read_start h) ≡ is_closing h
  pub write-is_closing : (h : Handle) (b : List ℕ) → is_closing (write h b) ≡ is_closing h
  pub connect-is_closing :
      (h : Handle) (a : String) (p : ℤ) → is_closing (tcp_connect h a p) ≡ is_closing h
  pub accept-is_closing : (h : Handle) → is_closing (accept h) ≡ is_closing h

module _ (uv : Uv) where
  open uv use {Handle, is_closing, close, close-is_closing}

  unfoldable pub close_if_active : Handle → Handle
  close_if_active h = if is_closing h then h else close h

  -- Whatever it was before, the handle is closing.
  pub close_if_active-is_closing : (h : Handle) → is_closing (close_if_active h) ≡ true
  unfolding close_if_active
  close_if_active-is_closing h = elim (Bool-cases (is_closing h)) [
    | inl e ↦ rw e e
    | inr e ↦ rw e (close-is_closing h)
  ]
