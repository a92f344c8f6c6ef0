-- ===== src/Examples/World.antt =====
-- A libuv whose calls all succeed but for a connect or a bind to port 1, and doubles that are the integers.
use luaw.Prelude.{refl, Bool, true, false, List, none, if◌then◌else◌}
use luaw.Prelude.Int.{ℤ, pos, negsuc, eqb}
use luaw.Uv.{Uv}
use luaw.Lpack.{Floats}

pub record ToyHandle : Type 0 where
  pub active : Bool
  pub closing : Bool

abbrev pub toy_uv : Uv
toy_uv = record {
  Handle = ToyHandle;
  fresh = record { active = false; closing = false };
  is_active = λ h. h.active;
  is_closing = λ h. h.closing;
  close = λ h. record { active = false; closing = true };
  timer_start = λ h n. record h { active = true };
  timer_start_rc = λ h n. pos 0;
  timer_stop = λ h. record h { active = false };
  read_start = λ h. record h { active = true };
  read_start_rc = λ h. pos 0;
  write = λ h b. h;
  write_rc = λ h b. pos 0;
  ip4_addr_rc = λ a p. pos 0;
  tcp_bind_rc = λ a p. if eqb p (pos 1) then negsuc 12 else pos 0;
  listen_rc = λ a p. pos 0;
  tcp_connect = λ h a p. h;
  tcp_connect_rc = λ h a p. if eqb p (pos 1) then negsuc 110 else pos 0;
  accept = λ h. h;
  accept_rc = λ h. pos 0;
  ecanceled = negsuc 124;
  eof = negsuc 4094;
  enobufs = negsuc 104;
  enomem = negsuc 11;
  eai_badflags = negsuc 3001;
  fresh-is_closing = refl;
  close-is_closing = λ h. refl;
  start-is_closing = λ h n. refl;
  stop-is_closing = λ h. refl;
  read-is_closing = λ h. refl;
  write-is_closing = λ h b. refl;
  connect-is_closing = λ h a p. refl;
  accept-is_closing = λ h. refl;
}

abbrev pub toy_floats : Floats
toy_floats = record {
  Double = ℤ;
  of_int = λ i. i;
  to_integer = λ d. d;
  to_int64 = λ d. d;
  is_nonzero = λ d. if eqb d (pos 0) then false else true;
  float_bits = λ d. 0;
  of_float_bits = λ n. pos n;
  double_bits = λ d. 0;
  of_double_bits = λ n. pos n;
  number_of_string = λ s. none;
  string_of_number = λ d. List.[];
  to_integer-of_pos = λ n h. refl;
  to_integer-of_negsuc = λ n h. refl;
}
