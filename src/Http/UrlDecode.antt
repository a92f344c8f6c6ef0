-- ===== src/Http/UrlDecode.antt =====
-- `decode_hex_str`, `handle_name_value_pair` and `luaw_url_decode` of src/luaw_http_parser.c. A byte is
-- a number. What a pointer and a length mark is the list of the bytes between them: a name and a value
-- are written to only after they have been read, and what `decode_hex_str` writes is not read again.
use luaw.Prelude.{
  ℕ, ◌%◌, Bool, true, false, List, [], ◌∷◌, ◌++◌, Option, none, some, if◌then◌else◌, ◌==◌, ◌||◌,
  ◌&&◌, length, ltb,
}

-- `decoder_state`.
pub data DecoderState : Type 0 where
  starting_name in_name starting_value in_value : DecoderState

-- The locals of `luaw_url_decode`, and the parameters stored so far.
pub record Decoder : Type 0 where
  pub ds : DecoderState
  pub name : List ℕ
  pub hex_name : Bool
  pub value : List ℕ
  pub hex_value : Bool
  pub params : List (List ℕ × List ℕ)

-- How a call ends, after the pairs that it has stored: with nothing left, with an error result that
-- names the place by the bytes from it on, or with a Lua error.
pub data Ending : Type 0 where
  stored : List (List ℕ × List ℕ) → Ending
  bad_name_start bad_name bad_value_start bad_value empty_name :
      List (List ℕ × List ℕ) → List ℕ → Ending
  missing_store : List (List ℕ × List ℕ) → Ending

-- What may follow a step of the loop.
pub data Next : Type 0 where
  goes : Decoder → Next
  ends : Ending → Next

-- `scan` is `sscanf(s, "%2x", &hex_ch)`: the number, or `none` where it sets none. `store` is whether
-- `storeHttpParam` is a function, and `junk` what `hex_ch` holds before it is set.
module _ (scan : List ℕ → Option ℕ) (store : Bool) (junk : ℕ) where
  -- `hex_ch` after `sscanf`.
  abbrev pub scanned : Option ℕ → ℕ → ℕ
  scanned none hex_ch = hex_ch
  scanned (some n) hex_ch = n

  -- `after` are the bytes behind those that are decoded, which `sscanf` may see as well.
  unfoldable pub decode_hex : ℕ → List ℕ → List ℕ → List ℕ
  decode_hex hex_ch [] after = []
  decode_hex hex_ch (c ∷ []) after = c ∷ []
  decode_hex hex_ch (c ∷ d ∷ []) after = c ∷ d ∷ []
  decode_hex hex_ch (c ∷ d ∷ e ∷ str) after = elim (c == 37) [
    | true ↦
        let h = scanned (scan (d ∷ e ∷ (str ++ after))) hex_ch in (h % 256) ∷ decode_hex h str after
    | false ↦ c ∷ decode_hex hex_ch (d ∷ e ∷ str) after
  ]

  unfoldable pub decode_hex_str : List ℕ → List ℕ → List ℕ
  decode_hex_str str after = decode_hex junk str after

  abbrev pub decode_if : Bool → List ℕ → List ℕ → List ℕ
  decode_if hex str after = if hex then decode_hex_str str after else str

  -- Between a name and its value stands '=', and behind the value what `after` has.
  unfoldable pub handle_name_value_pair : Decoder → List ℕ → Next
  handle_name_value_pair s after =
      if ltb 0 (length s.name) && ltb 0 (length s.value)
      then (if store
          then goes (record s {
            params =
                s.params
                ++ (
                  decode_if s.hex_name s.name (61 ∷ (s.value ++ after)),
                  decode_if s.hex_value s.value after,
                )
                  ∷ [];
          })
          else ends (missing_store s.params))
      else if (length s.name == 0) && ltb 0 (length s.value)
      then ends (empty_name s.params (s.value ++ after))
      else goes s

  -- `if (ch == '+') *read_ptr = ' '`.
  abbrev pub plus : ℕ → ℕ
  plus ch = if ch == 43 then 32 else ch

  abbrev pub start_name : ℕ → List ℕ → Decoder → Next
  start_name ch rest s =
      if (ch == 38) || (ch == 61)
      then ends (bad_name_start s.params (ch ∷ rest))
      else goes (record s { ds = in_name; name = plus ch ∷ []; hex_name = ch == 37 })

  abbrev pub cleared : Decoder → Decoder
  cleared s = record s { name = []; hex_name = false; value = []; hex_value = false }

  abbrev pub then_start_name : ℕ → List ℕ → Next → Next
  then_start_name ch rest (goes s) = start_name ch rest (cleared s)
  then_start_name ch rest (ends e) = ends e

  -- One pass of the loop, at `ch` with the bytes `rest` behind it.
  unfoldable pub decode_step : DecoderState → ℕ → List ℕ → Decoder → Next
  decode_step starting_name ch rest s =
      then_start_name ch rest (handle_name_value_pair s (38 ∷ ch ∷ rest))
  decode_step in_name ch rest s =
      if ch == 38
      then ends (bad_name s.params (ch ∷ rest))
      else if ch == 61
      then goes (record s { ds = starting_value })
      else goes (record s { name = s.name ++ plus ch ∷ []; hex_name = s.hex_name || (ch == 37) })
  decode_step starting_value ch rest s =
      if (ch == 38) || (ch == 61)
      then ends (bad_value_start s.params (ch ∷ rest))
      else goes
          (record s { ds = in_value; value = plus ch ∷ []; hex_value = s.hex_value || (ch == 37) })
  decode_step in_value ch rest s =
      if ch == 38
      then goes (record s { ds = starting_name })
      else if ch == 61
      then ends (bad_value s.params (ch ∷ rest))
      else goes
          (record s { value = s.value ++ plus ch ∷ []; hex_value = s.hex_value || (ch == 37) })

  abbrev pub last_pair : Next → Ending
  last_pair (goes s) = stored s.params
  last_pair (ends e) = e

  -- What stands behind the last value: nothing, or an '&' that ends the text.
  abbrev pub behind_last : DecoderState → List ℕ
  behind_last starting_name = 38 ∷ []
  behind_last _ = []

  unfoldable pub decode_loop : List ℕ → Decoder → Ending
  decode_loop [] s = last_pair (handle_name_value_pair s (behind_last s.ds))
  decode_loop (ch ∷ rest) s = elim (decode_step s.ds ch rest s) [
    | goes s' ↦ decode_loop rest s'
    | ends e ↦ e
  ]

  unfoldable pub luaw_url_decode : List ℕ → Ending
  luaw_url_decode str = decode_loop str (record {
    ds = starting_name;
    name = [];
    hex_name = false;
    value = [];
    hex_value = false;
    params = [];
  })
