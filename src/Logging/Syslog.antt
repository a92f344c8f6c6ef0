-- ===== src/Logging/Syslog.antt =====
-- src/luaw_logging.c: the host name, and the connection to a syslog server. The network is a parameter.
use luaw.Prelude.{
  ℕ, ◌≡◌, refl, ◌∙◌, ◌++◌, Bool, true, false, List, [], ◌∷◌, Option, none, some, if◌then◌else◌,
  String, ◌==◌, length, arith, Bool-cases, inl, inr,
}
use luaw.Prelude.Int.{ℤ, pos, negsuc, is_zero}
use luaw.Lua.{Value, boolean}

-- The calls of the system: the code of `getaddrinfo` with the address that it gives when the code is 0, the
-- descriptor of a socket or an error, the code of the `fcntl` that sets flags, and the name of the host, if
-- `gethostname` gives one.
pub record Net : Type 1 where
  pub Addr : Type 0
  pub getaddrinfo : String → String → ℤ × Addr
  pub socket : Addr → ℤ
  pub set_nonblock : ℤ → ℤ
  pub gethostname : Option String

-- `get_hostname` with its buffer, `none` while it is empty: the system is asked once.
unfoldable pub get_hostname : Option String → Option String → String
get_hostname (some name) asked = name
get_hostname none none = "localhost"
get_hostname none (some name) = name

abbrev pub is_negative : ℤ → Bool
is_negative (pos n) = false
is_negative (negsuc n) = true

abbrev pub is_positive : ℤ → Bool
is_positive (pos n) = if n == 0 then false else true
is_positive (negsuc n) = false

module _ (net : Net) where
  open net use {Addr, getaddrinfo, socket, set_nonblock}

  -- `log_server_addr`, `log_sock_fd`, and the messages that were sent, newest first.
  pub record Syslog : Type 0 where
    pub log_server_addr : Option Addr
    pub log_sock_fd : ℤ
    pub sent : List (ℤ × Addr × List ℕ)

  abbrev pub not_connected : Syslog
  not_connected = record { log_server_addr = none; log_sock_fd = negsuc 0; sent = [] }

  -- A status that is not negative is a success for Lua.
  abbrev pub reports : ℤ → List Value
  reports rc = boolean (if is_negative rc then false else true) ∷ []

  abbrev pub open_socket : Addr → Syslog → Syslog × List Value
  open_socket addr s =
      let fd = socket addr in
      let s' = record s { log_server_addr = some addr } in
      if is_negative fd
      then (s', reports fd)
      else (record s' { log_sock_fd = fd }, reports (set_nonblock fd))

  unfoldable pub connect_to_syslog : Option String → Option String → Syslog → Syslog × List Value
  connect_to_syslog none port s = (s, reports (negsuc 0))
  connect_to_syslog (some ip) none s = (s, reports (negsuc 0))
  connect_to_syslog (some ip) (some port) s =
      let (rc, addr) = getaddrinfo ip port in
      if is_zero rc then open_socket addr s else (s, reports rc)

  abbrev pub send_to : List ℕ → Option Addr → Syslog → Option Syslog
  send_to message none s = none
  send_to message (some addr) s = some (record s { sent = (s.log_sock_fd, addr, message) ∷ s.sent })

  -- The message, `none` if it is no string; sending to no address is a fault.
  unfoldable pub send_to_syslog : Option (List ℕ) → Syslog → Option Syslog
  send_to_syslog none s = some s
  send_to_syslog (some message) s =
      if is_positive s.log_sock_fd
      then (if length message == 0 then some s else send_to message s.log_server_addr s)
      else some s

  -- The address is freed; the server makes no other call after this one.
  unfoldable pub close_syslog : Syslog → Syslog
  close_syslog s = record s { log_server_addr = none }

  pub data Call : Type 0 where
    connects : Option String → Option String → Call
    sends : Option (List ℕ) → Call

  unfoldable pub make_call : Call → Syslog → Option Syslog
  make_call (connects ip port) s = some (connect_to_syslog ip port s).0
  make_call (sends message) s = send_to_syslog message s

  unfoldable pub make_calls : List Call → Syslog → Option Syslog
  make_calls [] s = some s
  make_calls (c ∷ cs) s = elim (make_call c s) [ none ↦ none | some t ↦ make_calls cs t ]

  -- The descriptor that a connect leaves, and the messages to send that a call brings: none but what is a
  -- string and not empty.
  abbrev new_fd : ℤ → ℤ → ℤ
  new_fd fd old = if is_negative fd then old else fd

  abbrev fd_after : Call → ℤ → ℤ
  fd_after (connects (some ip) (some port)) old =
      if is_zero (getaddrinfo ip port).0 then new_fd (socket (getaddrinfo ip port).1) old else old
  fd_after _ old = old

  abbrev given : Call → List (List ℕ)
  given (sends (some message)) = if length message == 0 then [] else message ∷ []
  given _ = []

  -- The messages that are given while there is a socket, behind those before, newest first.
  abbrev pub messages : ℤ → List Call → List (List ℕ) → List (List ℕ)
  messages fd [] before = before
  messages fd (c ∷ cs) before =
      messages (fd_after c fd) cs (if is_positive fd then given c ++ before else before)

  abbrev pub bodies : List (ℤ × Addr × List ℕ) → List (List ℕ)
  bodies [] = []
  bodies ((fd, addr, message) ∷ ms) = message ∷ bodies ms

  abbrev has_addr : Option Addr → Bool
  has_addr none = false
  has_addr (some a) = true

  -- Where there is a socket there is an address.
  abbrev IsConnected : Syslog → Type 0
  IsConnected s = (if is_positive s.log_sock_fd then has_addr s.log_server_addr else true) ≡ true

  -- A call finds an address, and does to the descriptor and the messages what is described.
  abbrev Follows : Call → Syslog → Syslog → Type 0
  Follows c s t =
      IsConnected t
      × (t.log_sock_fd ≡ fd_after c s.log_sock_fd)
      × (bodies t.sent
          ≡ (if is_positive s.log_sock_fd then given c ++ bodies s.sent else bodies s.sent))

  connect-Follows :
      (ip port : String) (s : Syslog)
      → IsConnected s
      → Follows (connects (some ip) (some port)) s (connect_to_syslog (some ip) (some port) s).0
  unfolding connect_to_syslog
  connect-Follows ip port s h = ground arith

  send_to-Follows :
      (message : List ℕ) (o : Option Addr) (s : Syslog)
      → s.log_server_addr ≡ o
      → IsConnected s
      → is_positive s.log_sock_fd ≡ true
      → (length message == 0) ≡ false
      → (t : Syslog) × (send_to_syslog (some message) s ≡ some t)
        × Follows (sends (some message)) s t
  unfolding send_to_syslog
  send_to-Follows message none s e h k l = absurd (ground arith)
  send_to-Follows message (some addr) s e h k l =
      (record s { sent = (s.log_sock_fd, addr, message) ∷ s.sent }, ground arith, ground arith)

  send-Follows :
      (message : List ℕ) (o : Option Addr) (s : Syslog)
      → s.log_server_addr ≡ o
      → IsConnected s
      → (t : Syslog) × (send_to_syslog (some message) s ≡ some t)
        × Follows (sends (some message)) s t
  unfolding send_to_syslog
  send-Follows message o s e h = elim (Bool-cases (is_positive s.log_sock_fd)) [
    | inr closed ↦ (s, ground arith, ground arith)
    | inl connected ↦ elim (Bool-cases (length message == 0)) [
      | inl empty ↦ (s, ground arith, ground arith)
      | inr full ↦ send_to-Follows message o s e h connected full
    ]
  ]

  call-Follows :
      (c : Call) (s : Syslog)
      → IsConnected s
      → (t : Syslog) × (make_call c s ≡ some t) × Follows c s t
  unfolding make_call connect_to_syslog send_to_syslog
  call-Follows (connects (some ip) (some port)) s h = (_, refl, connect-Follows ip port s h)
  call-Follows (connects (some ip) none) s h = (s, refl, ground arith)
  call-Follows (connects none port) s h = (s, refl, ground arith)
  call-Follows (sends none) s h = (s, refl, ground arith)
  call-Follows (sends (some message)) s h = send-Follows message s.log_server_addr s refl h

  make_calls-next :
      (c : Call) (cs : List Call) (s u : Syslog)
      → make_call c s ≡ some u
      → make_calls (c ∷ cs) s ≡ make_calls cs u
  unfolding make_calls
  make_calls-next c cs s u e = rw (make_calls, e) refl

  calls-messages :
      (cs : List Call) (s : Syslog)
      → IsConnected s
      → (t : Syslog) × (make_calls cs s ≡ some t)
        × (bodies t.sent ≡ messages s.log_sock_fd cs (bodies s.sent))
  unfolding make_calls
  calls-messages [] s h = (s, refl, refl)
  calls-messages (c ∷ cs) s h =
      let (u, e, (i, fd, b)) = call-Follows c s h in
      let (t, e', b') = calls-messages cs u i in
      (t, make_calls-next c cs s u e ∙ e', b' ∙ rw (fd, b) refl)

  -- From the start, no sequence of calls makes the code send to no address; the messages sent are those
  -- given while there is a socket, each once and in their order.
  pub make_calls-messages :
      (cs : List Call)
      → (t : Syslog) × (make_calls cs not_connected ≡ some t)
        × (bodies t.sent ≡ messages (negsuc 0) cs [])
  make_calls-messages cs = calls-messages cs not_connected refl
