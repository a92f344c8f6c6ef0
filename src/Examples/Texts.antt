-- ===== src/Examples/Texts.antt =====
-- Parsing a URL (src/luaw_http_parser.c), sending to syslog (src/luaw_logging.c), and the names that Lua
-- finds (src/luaw_common.c).
use luaw.Prelude.{refl, ℕ, ◌≡◌, arith, Bool, true, false, List, [], ◌∷◌, Option, none, some}
use luaw.Prelude.Int.{pos}
use luaw.Http.Url.{
  UrlField, host, path, HttpParserUrl, AreInside, Answers, luaw_parse_url, luaw_parse_url-Answers,
}
use luaw.Logging.Syslog.{
  Net, Syslog, connects, sends, Call, make_calls, not_connected, bodies, make_calls-messages,
}
use luaw.Registration.Objects.{create_dict, index}

-- `//a/b`: the host is `a` and the path `/b`.
abbrev toy_off : UrlField → ℕ
toy_off host = 2
toy_off path = 3
toy_off _ = 0

abbrev toy_len : UrlField → ℕ
toy_len host = 1
toy_len path = 2
toy_len _ = 0

abbrev toy_url : HttpParserUrl
toy_url = record { field_set = 10; off = toy_off; len = toy_len }

abbrev toy_parse : List ℕ → Bool → Option HttpParserUrl
toy_parse buff is_connect = some toy_url

abbrev url : List ℕ
url = 47 ∷ 47 ∷ 97 ∷ 47 ∷ 98 ∷ []

url-AreInside : AreInside url (some toy_url)
url-AreInside UrlField.schema h = omega arith
url-AreInside host h = omega arith
url-AreInside path h = omega arith
url-AreInside _ h = omega arith

luaw_parse_url-Answers_example :
    Answers url (some toy_url) (luaw_parse_url toy_parse true url false)
luaw_parse_url-Answers_example = luaw_parse_url-Answers toy_parse url false url-AreInside

-- A network that knows one address and gives one socket.
abbrev toy_net : Net
toy_net = record {
  Addr = ℕ;
  getaddrinfo = λ ip port. (pos 0, 514);
  socket = λ a. pos 7;
  set_nonblock = λ fd. pos 0;
  gethostname = none;
}

abbrev logging : List (Call toy_net)
logging =
    sends (some (1 ∷ []))
    ∷ connects (some "10.0.0.1") (some "514")
    ∷ sends (some (2 ∷ []))
    ∷ sends (some [])
    ∷ sends none
    ∷ sends (some (3 ∷ []))
    ∷ []

make_calls-messages_example :
    (t : Syslog toy_net) × (make_calls toy_net logging (not_connected toy_net) ≡ some t)
    × (bodies toy_net t.sent ≡ (3 ∷ []) ∷ (2 ∷ []) ∷ [])
make_calls-messages_example = make_calls-messages toy_net logging

-- A new dictionary is an empty table with no metatable, whatever sizes are set aside.
empty_dict : index "size" (create_dict 4 2) ≡ none
unfolding create_dict
empty_dict = refl
