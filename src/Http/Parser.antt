-- ===== src/Http/Parser.antt =====
-- The driver of http_parser in src/luaw_http_parser.c: parsers, their callbacks, and `parse_http`.
use luaw.Prelude.{
  ℕ, ◌+◌, ◌≤◌, ◌≡◌, ap, ◌∙◌, refl, String, Bool, true, false, List, [], ◌∷◌, Option, none, some,
  if◌then◌else◌, ◌&&◌, not, ltb, length, drop, arith,
}
use luaw.Prelude.Int.{ℤ, pos, negsuc}
use luaw.Lua.{Value, nil, boolean, integer, bytes, text}

-- `http_parser_cb_type`, and its numbers.
pub data HttpCb : Type 0 where
  none_made message_begin status url header_field header_value headers_complete body : HttpCb
  mesg_complete : HttpCb

abbrev pub cb_code : HttpCb → ℕ
cb_code HttpCb.none_made = 1
cb_code HttpCb.message_begin = 2
cb_code HttpCb.status = 3
cb_code HttpCb.url = 4
cb_code HttpCb.header_field = 5
cb_code HttpCb.header_value = 6
cb_code HttpCb.headers_complete = 7
cb_code HttpCb.body = 8
cb_code HttpCb.mesg_complete = 9

-- A callback with the bytes that it is given, none where it is given none.
pub record Callback : Type 0 where
  pub cb : HttpCb
  pub content : List ℕ

pub data Kind : Type 0 where
  request response : Kind

-- http_parser, which is a library: its state, the functions that are called, and what they set.
-- `execute` gives the state, the number of bytes parsed and the callbacks made, the first one first;
-- what the callbacks do to the parser, which is to pause it, comes on top. `failed` is whether `http_errno`
-- is an error, and pausing is none: `http_parser_pause` asserts that a parser has not failed.
pub record HttpParser : Type 1 where
  pub State : Type 0
  pub init : Kind → State → State
  pub kind : State → Kind
  pub execute : State → List ℕ → State × ℕ × List Callback
  pub pause : Bool → State → State
  pub is_paused : State → Bool
  pub failed : State → Bool
  pub should_keep_alive : State → Bool
  pub http_major : State → ℤ
  pub http_minor : State → ℤ
  pub method_name : State → String
  pub status_code : State → ℤ

abbrev pub last_of : List Callback → Option Callback
last_of [] = none
last_of (c ∷ []) = some c
last_of (c ∷ d ∷ cs) = last_of (d ∷ cs)

-- What http_parser promises. A parser that has not failed can be paused, as often as one likes, and to be
-- paused is not to have failed. Of bytes that are given it parses no more than there are, and where it
-- fails not all of them; no bytes at all stand for the end of the input, and it may fail at these. It
-- returns as soon as a callback pauses it, and so has not failed where it made one.
pub record IsHttpParser (hp : HttpParser) : Type 0 where
  pub pause_once :
      (s : hp.State) → hp.failed s ≡ false → hp.pause true (hp.pause true s) ≡ hp.pause true s
  pub pause_stops : (s : hp.State) → hp.failed s ≡ false → hp.is_paused (hp.pause true s) ≡ true
  pub paused_runs : (s : hp.State) → hp.is_paused s ≡ true → hp.failed s ≡ false
  pub execute_fits :
      (s : hp.State) (c : ℕ) (cs : List ℕ) → (hp.execute s (c ∷ cs)).1 ≤ length (c ∷ cs)
  pub execute_all :
      (s : hp.State) (c : ℕ) (cs : List ℕ)
      → (hp.execute s (c ∷ cs)).1 ≡ length (c ∷ cs)
      → hp.failed (hp.execute s (c ∷ cs)).0 ≡ false
  pub execute_calls :
      (s : hp.State) (b : List ℕ) (c : Callback) (cs : List Callback)
      → (hp.execute s b).2 ≡ c ∷ cs
      → hp.failed (hp.execute s b).0 ≡ false

module _ (hp : HttpParser) where
  open hp use {State, init, kind, pause, is_paused, failed, should_keep_alive}

  -- `luaw_http_parser_t`; the bytes are those that `start` and `len` mark.
  pub record LhttpParser : Type 0 where
    pub parser : State
    pub http_cb : HttpCb
    pub content : List ℕ

  -- `luaw_new_http_request_parser` and `luaw_new_http_response_parser`, from the memory that Lua gave.
  unfoldable pub new_lhttp_parser : Kind → LhttpParser → LhttpParser
  new_lhttp_parser k p = record p { parser = init k p.parser }

  unfoldable pub luaw_init_http_parser : LhttpParser → LhttpParser
  luaw_init_http_parser p = record p { parser = init (kind p.parser) p.parser }

  -- `handle_http_callback`, which all eight callbacks call.
  unfoldable pub handle_http_callback : LhttpParser → Callback → LhttpParser
  handle_http_callback p c = record p {
    parser = pause true p.parser;
    http_cb = c.cb;
    content = c.content;
  }

  abbrev pub handle_all : LhttpParser → List Callback → LhttpParser
  handle_all p [] = p
  handle_all p (c ∷ cs) = handle_all (handle_http_callback p c) cs

  -- The results behind the callback and the offset.
  unfoldable pub cb_results : LhttpParser → HttpCb → List Value
  cb_results p HttpCb.headers_complete =
      boolean (should_keep_alive p.parser)
      ∷ integer (hp.http_major p.parser)
      ∷ integer (hp.http_minor p.parser)
      ∷ (elim (kind p.parser) [
        | Kind.request ↦ text (hp.method_name p.parser) ∷ nil ∷ []
        | Kind.response ↦ nil ∷ integer (hp.status_code p.parser) ∷ []
      ])
  cb_results p HttpCb.none_made = boolean (should_keep_alive p.parser) ∷ []
  cb_results p HttpCb.mesg_complete = boolean (should_keep_alive p.parser) ∷ []
  cb_results p _ = bytes p.content ∷ []

  -- After `http_parser_execute`, at the new offset; `none` where `http_parser_pause` stops the program.
  unfoldable pub after_execute : LhttpParser → ℕ → ℕ → Option (LhttpParser × List Value)
  after_execute p len offset =
      if ltb offset len && not (is_paused p.parser)
      then some (p, boolean false ∷ text "Error parsing HTTP fragment" ∷ [])
      else if failed p.parser
      then none
      else some (
        record p { parser = pause false p.parser },
        integer (pos (cb_code p.http_cb)) ∷ integer (pos offset) ∷ cb_results p p.http_cb,
      )

  unfoldable pub parse_at : LhttpParser → List ℕ → ℕ → Option (LhttpParser × List Value)
  unfolding handle_http_callback
  parse_at p buff offset =
      let (state, nparsed, callbacks) = hp.execute p.parser (drop offset buff) in
      after_execute (handle_all (record p { parser = state; http_cb = HttpCb.none_made }) callbacks)
        (length buff) (offset + nparsed)

  -- `offset > len` compares as `size_t`, so that a negative offset is refused as well.
  unfoldable pub parse_http : LhttpParser → List ℕ → ℤ → Option (LhttpParser × List Value)
  parse_http p buff (negsuc k) = some (p, boolean false ∷ text "Wrong offset into HTTP string" ∷ [])
  parse_http p buff (pos offset) =
      if ltb (length buff) offset
      then some (p, boolean false ∷ text "Wrong offset into HTTP string" ∷ [])
      else parse_at p buff offset

  -- The second result, if it is an offset.
  abbrev pub offset_of : List Value → Option ℕ
  offset_of (integer _ ∷ integer (pos k) ∷ _) = some k
  offset_of _ = none

  -- An offset between two bounds, if there is one.
  abbrev pub Within : ℕ → ℕ → Option ℕ → Type 0
  Within lo hi none = Unit {0}
  Within lo hi (some k) = (lo ≤ k) × (k ≤ hi)

  length-cb_results :
      (p : LhttpParser) (c : HttpCb) → (length (cb_results p c) ≤ 5) × (1 ≤ length (cb_results p c))
  unfolding cb_results
  length-cb_results p HttpCb.headers_complete = ground arith
  length-cb_results p _ = (omega arith, omega arith)

  -- What the Lua code may count on: results, in the number that it reads, and an offset in the buffer.
  abbrev pub Delivers : ℕ → ℕ → Option (LhttpParser × List Value) → Type 0
  Delivers lo hi none = ⊥
  Delivers lo hi (some (p, r)) = Within lo hi (offset_of r) × (length r ≤ 7) × (2 ≤ length r)

  pub after_execute-Delivers :
      (p : LhttpParser) (lo len k : ℕ)
      → lo ≤ k
      → k ≤ len
      → (is_paused p.parser ≡ true → failed p.parser ≡ false)
      → (k ≡ len → failed p.parser ≡ false)
      → Delivers lo len (after_execute p len k)
  unfolding after_execute
  after_execute-Delivers p lo len k l m r e = ground (arith, length-cb_results p p.http_cb)

  -- Pausing again changes nothing, so that of several callbacks the last one shows.
  pub handle_all-last :
      IsHttpParser hp
      → (p : LhttpParser) (c : Callback) (cs : List Callback) → failed p.parser ≡ false
      → (e : Callback) × (last_of (c ∷ cs) ≡ some e)
        × (handle_all p (c ∷ cs) ≡ handle_http_callback p e)
  unfolding handle_http_callback
  handle_all-last is p c [] ok = (c, refl, refl)
  handle_all-last is p c (d ∷ cs) ok =
      let stopped = is.pause_stops p.parser ok in
      let (e, q, r) =
        handle_all-last is (handle_http_callback p c) d cs
          (is.paused_runs (pause true p.parser) stopped) in
      (
        e,
        q,
        r
            ∙ ap
                (λ s.
                  let o : LhttpParser = record p {
                    parser = s;
                    http_cb = e.cb;
                    content = e.content;
                  } in
                  o)
                (is.pause_once p.parser ok),
      )
