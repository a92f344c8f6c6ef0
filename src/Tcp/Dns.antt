-- ===== src/Tcp/Dns.antt =====
-- src/luaw_tcp.c: `dns_resolve` and its callback. The resolver's data, an allocated thread id, is the
-- request: it lives until the callback frees it.
use luaw.Prelude.{String, Bool, true, false, List, [], ◌∷◌, Option, none, some, if◌then◌else◌, not}
use luaw.Prelude.Int.{ℤ, is_zero}
use luaw.Lua.{Value, boolean, text, strerror, format, Resume, resume_lua_thread, error_to_lua}

-- What libuv makes of an address: a code and the text.
module _ {Address : Type 0} (ip4_name_rc : Address → ℤ) (ip4_name : Address → String) where
  abbrev pub resolved_status : ℤ → Option Address → ℤ
  resolved_status status none = status
  resolved_status status (some addr) = if is_zero status then ip4_name_rc addr else status

  -- The two results that the thread is handed.
  abbrev pub resolved_to : ℤ → ℤ → Option Address → Resume
  resolved_to tid status none = record {
    tid = tid;
    status = false;
    result = format "DNS resolution failed: %s" (strerror status);
  }
  resolved_to tid status (some addr) =
      if not (is_zero status)
      then record {
        tid = tid;
        status = false;
        result = format "DNS resolution failed: %s" (strerror status);
      }
      else record { tid = tid; status = true; result = text (ip4_name addr) }

  -- The callback with the thread id of its request.
  unfoldable pub on_resolved : ℤ → ℤ → Option Address → List Resume → List Resume
  unfolding resume_lua_thread
  on_resolved tid status res calls =
      resume_lua_thread (resolved_to tid (resolved_status status res) res) calls

-- The thread id, whether the two allocations succeed, and what `uv_getaddrinfo` returns; the request
-- that is pending afterwards, and the results to Lua.
unfoldable pub dns_resolve : ℤ → Bool → Bool → ℤ → Option ℤ × List Value
unfolding error_to_lua
dns_resolve tid has_resolver has_tid rc =
    if is_zero tid
    then (none, error_to_lua (text "Invalid thread id specified in dns_resolve"))
    else if not has_resolver
    then (none, error_to_lua (text "Could not allocate memory for DNS resolver"))
    else if not has_tid
    then (none, error_to_lua (text "Could not allocate memory thread id"))
    else if is_zero rc
    then (some tid, boolean true ∷ [])
    else (none, error_to_lua (format "DNS resolve failed: %s" (strerror rc)))

abbrev pub succeeded : List Value → Bool
succeeded (boolean b ∷ _) = b
succeeded _ = false
