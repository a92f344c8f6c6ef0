-- ===== src/Examples/Parsing.antt =====
-- The driver of http_parser in src/luaw_http_parser.c.
use luaw.Prelude.{ℕ, ◌≤◌, ◌≡◌, refl, Bool, true, false, List, [], ◌∷◌, none, some, length, arith}
use luaw.Prelude.Int.{pos}
use luaw.Lua.{integer, bytes}
use luaw.Http.Parser.{
  HttpParser, request, HttpCb, Callback, LhttpParser, IsHttpParser, after_execute, Delivers,
  parse_at, parse_http,
}
use luaw.Http.Reports.{seen, parse_http-report}
use luaw.Http.Offsets.{parse_http-Delivers}

-- A parser that takes all bytes as a URL, and fails at the end of the input.
data ToyState : Type 0 where
  running stopped broken : ToyState

abbrev toy_execute : ToyState → List ℕ → ToyState × ℕ × List Callback
toy_execute running [] = (broken, 1, [])
toy_execute running (c ∷ cs) =
    (running, length (c ∷ cs), record { cb = HttpCb.url; content = c ∷ cs } ∷ [])
toy_execute stopped b = (stopped, 0, [])
toy_execute broken b = (broken, 0, [])

abbrev toy_pause : Bool → ToyState → ToyState
toy_pause b broken = broken
toy_pause true s = stopped
toy_pause false s = running

abbrev toy_is_paused : ToyState → Bool
toy_is_paused stopped = true
toy_is_paused _ = false

abbrev toy_failed : ToyState → Bool
toy_failed broken = true
toy_failed _ = false

abbrev toy_parser : HttpParser
toy_parser = record {
  State = ToyState;
  init = λ k s. running;
  kind = λ s. request;
  execute = toy_execute;
  pause = toy_pause;
  is_paused = toy_is_paused;
  failed = toy_failed;
  should_keep_alive = λ s. true;
  http_major = λ s. pos 1;
  http_minor = λ s. pos 1;
  method_name = λ s. "GET";
  status_code = λ s. pos 0;
}

toy_pause-once :
    (s : ToyState) → toy_failed s ≡ false → toy_pause true (toy_pause true s) ≡ toy_pause true s
toy_pause-once running h = refl
toy_pause-once stopped h = refl
toy_pause-once broken h = refl

toy_pause-stops : (s : ToyState) → toy_failed s ≡ false → toy_is_paused (toy_pause true s) ≡ true
toy_pause-stops running h = refl
toy_pause-stops stopped h = refl
toy_pause-stops broken h = absurd (cc)

toy_failed-paused : (s : ToyState) → toy_is_paused s ≡ true → toy_failed s ≡ false
toy_failed-paused running h = refl
toy_failed-paused stopped h = refl
toy_failed-paused broken h = absurd (cc)

toy_execute-fits :
    (s : ToyState) (c : ℕ) (cs : List ℕ) → (toy_execute s (c ∷ cs)).1 ≤ length (c ∷ cs)
toy_execute-fits running c cs = omega arith
toy_execute-fits stopped c cs = omega arith
toy_execute-fits broken c cs = omega arith

toy_execute-all :
    (s : ToyState) (c : ℕ) (cs : List ℕ)
    → (toy_execute s (c ∷ cs)).1 ≡ length (c ∷ cs)
    → toy_failed (toy_execute s (c ∷ cs)).0 ≡ false
toy_execute-all running c cs h = refl
toy_execute-all stopped c cs h = refl
toy_execute-all broken c cs h = absurd (omega arith)

toy_execute-calls :
    (s : ToyState) (b : List ℕ) (c : Callback) (cs : List Callback)
    → (toy_execute s b).2 ≡ c ∷ cs
    → toy_failed (toy_execute s b).0 ≡ false
toy_execute-calls running [] c cs h = absurd (cc)
toy_execute-calls running (d ∷ ds) c cs h = refl
toy_execute-calls stopped b c cs h = refl
toy_execute-calls broken b c cs h = absurd (cc)

toy_parser-IsHttpParser : IsHttpParser toy_parser
toy_parser-IsHttpParser = record {
  pause_once = toy_pause-once;
  pause_stops = toy_pause-stops;
  paused_runs = toy_failed-paused;
  execute_fits = toy_execute-fits;
  execute_all = toy_execute-all;
  execute_calls = toy_execute-calls;
}

abbrev fresh_parser : LhttpParser toy_parser
fresh_parser = record { parser = running; http_cb = HttpCb.none_made; content = [] }

parse_http-Delivers_example :
    Delivers toy_parser 1 4 (parse_http toy_parser fresh_parser (71 ∷ 69 ∷ 84 ∷ 32 ∷ []) (pos 1))
parse_http-Delivers_example =
    parse_http-Delivers toy_parser toy_parser-IsHttpParser fresh_parser (71 ∷ 69 ∷ 84 ∷ 32 ∷ []) 1
      (omega arith)

parse_http-report_example :
    seen toy_parser (parse_http toy_parser fresh_parser (71 ∷ 69 ∷ 84 ∷ 32 ∷ []) (pos 1))
    ≡ some (running, integer (pos 4) ∷ integer (pos 4) ∷ bytes (69 ∷ 84 ∷ 32 ∷ []) ∷ [])
parse_http-report_example =
    parse_http-report toy_parser toy_parser-IsHttpParser fresh_parser (71 ∷ 69 ∷ 84 ∷ 32 ∷ []) 1
      refl

-- At the end of the buffer, in the middle of a message: the assertion in `http_parser_pause` fails.
no_bytes_left : parse_http toy_parser fresh_parser (71 ∷ 69 ∷ 84 ∷ 32 ∷ []) (pos 4) ≡ none
unfolding parse_http parse_at after_execute
no_bytes_left = refl
