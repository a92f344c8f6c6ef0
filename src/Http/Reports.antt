-- ===== src/Http/Reports.antt =====
-- What `parse_http` of src/luaw_http_parser.c reports of a run of http_parser: its last callback.
use luaw.Prelude.{
  ℕ, ◌+◌, ◌≡◌, refl, true, false, List, [], ◌∷◌, Option, none, some, if◌then◌else◌, ◌&&◌, not, ltb,
  length, drop, arith,
}
use luaw.Prelude.Int.{pos}
use luaw.Lua.{Value, nil, boolean, integer, bytes, text}
use luaw.Http.Parser.{
  HttpParser, HttpCb, Callback, Kind, cb_code, LhttpParser, IsHttpParser, last_of, handle_all-last,
  handle_http_callback, handle_all, cb_results, after_execute, parse_at, parse_http,
}

module _ (hp : HttpParser) where
  open hp use {State, kind, pause, is_paused, failed, should_keep_alive}

  -- What follows the callback's number and the offset, from the parser's state.
  abbrev pub details : State → Callback → List Value
  details s c = elim c.cb [
    | HttpCb.headers_complete ↦
        boolean (should_keep_alive s)
        ∷ integer (hp.http_major s)
        ∷ integer (hp.http_minor s)
        ∷ (elim (kind s) [
          | Kind.request ↦ text (hp.method_name s) ∷ nil ∷ []
          | Kind.response ↦ nil ∷ integer (hp.status_code s) ∷ []
        ])
    | HttpCb.none_made ↦ boolean (should_keep_alive s) ∷ []
    | HttpCb.mesg_complete ↦ boolean (should_keep_alive s) ∷ []
    | _ ↦ bytes c.content ∷ []
  ]

  -- The results for the last callback, if any, of a run that ends at an offset, and the state that
  -- http_parser is left in: resumed, but for an error. There are none where it has to be resumed but has
  -- failed.
  abbrev pub report : State → Option Callback → ℕ → ℕ → Option (State × List Value)
  report s none len offset =
      if ltb offset len && not (is_paused s)
      then some (s, boolean false ∷ text "Error parsing HTTP fragment" ∷ [])
      else if failed s
      then none
      else some (
        pause false s,
        integer (pos 1) ∷ integer (pos offset) ∷ boolean (should_keep_alive s) ∷ [],
      )
  report s (some c) len offset = some (
    pause false (pause true s),
    integer (pos (cb_code c.cb)) ∷ integer (pos offset) ∷ details (pause true s) c,
  )

  -- What the program returns, of its parser only http_parser's state.
  abbrev pub seen : Option (LhttpParser hp × List Value) → Option (State × List Value)
  seen none = none
  seen (some (p, r)) = some (p.parser, r)

  module _ (is : IsHttpParser hp) where
    after-report :
        (p : LhttpParser hp) (e : Callback) (len offset : ℕ)
        → failed p.parser ≡ false
        → seen (after_execute hp (handle_http_callback hp p e) len offset)
          ≡ report p.parser (some e) len offset
    unfolding after_execute handle_http_callback cb_results
    after-report p e len offset ok =
        let stopped = is.pause_stops p.parser ok in
        let runs = is.paused_runs (pause true p.parser) stopped in ground arith

    run-report :
        (p : LhttpParser hp) (cs : List Callback) (len offset : ℕ)
        → ((c : Callback) (cs' : List Callback) → cs ≡ c ∷ cs' → failed p.parser ≡ false)
        → seen (
            after_execute hp
              (handle_all hp (record p { http_cb = HttpCb.none_made }) cs)
              len
              offset)
          ≡ report p.parser (last_of cs) len offset
    run-report p [] len offset h = unfold after_execute cb_results in ground arith
    run-report p (c ∷ cs) len offset h =
        let q : LhttpParser hp = record p { http_cb = HttpCb.none_made } in
        let ok = h c cs refl in
        let (e, l, g) = handle_all-last hp is q c cs ok in
        rw (l, g) (after-report q e len offset ok)

    -- Let http_parser keep what it promises. Then, at an offset in the buffer or at its end, `parse_http`
    -- returns the number of the last callback that http_parser makes in this call, the new offset and the
    -- callback's details; where it makes none, that there is none, or an error if bytes are left and the
    -- parser is not paused. It leaves the parser resumed, but for the error; where it is to be resumed but
    -- has failed, nothing is returned, since `http_parser_pause` stops the program. Of an earlier call
    -- nothing shows but the state of http_parser.
    pub parse_http-report :
        (p : LhttpParser hp) (buff : List ℕ) (k : ℕ)
        → ltb (length buff) k ≡ false
        → let (s, n, cs) = hp.execute p.parser (drop k buff) in
          seen (parse_http hp p buff (pos k)) ≡ report s (last_of cs) (length buff) (k + n)
    unfolding parse_http parse_at
    parse_http-report p buff k inside =
        let (s, n, cs) = hp.execute p.parser (drop k buff) in
        rw inside (
          run-report (record p { parser = s }) cs (length buff) (k + n)
            (is.execute_calls p.parser (drop k buff)))
