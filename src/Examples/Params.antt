-- ===== src/Examples/Params.antt =====
-- Form parameters of src/luaw_http_parser.c.
use luaw.Prelude.{
  ℕ, ◌+◌, ◌-◌, ◌*◌, ◌≡◌, true, false, List, [], ◌∷◌, Option, none, some, if◌then◌else◌, ltb, arith,
}
use luaw.Http.UrlDecode.{
  stored, bad_value, missing_store, decode_hex, decode_hex_str, luaw_url_decode,
}
use luaw.Http.Params.{AreParams, ReadsHex}
use luaw.Http.Queries.{luaw_url_decode-query}
use luaw.Http.Equivalence.{luaw_url_decode-form_pairs}

abbrev digit_value : ℕ → ℕ
digit_value d = if ltb d 58 then d - 48 else d - 55

-- Two upper case digits, as `sscanf` reads them.
abbrev toy_scan : List ℕ → Option ℕ
toy_scan (a ∷ b ∷ _) = some (16 * digit_value a + digit_value b)
toy_scan _ = none

toy_scan-ReadsHex : ReadsHex toy_scan
toy_scan-ReadsHex b rest h = ground arith

-- a = "b c&", d = "e"
abbrev params : List (List ℕ × List ℕ)
params = (97 ∷ [], 98 ∷ 32 ∷ 99 ∷ 38 ∷ []) ∷ (100 ∷ [], 101 ∷ []) ∷ []

params-AreParams : AreParams params
params-AreParams = ground arith

luaw_url_decode-query_example :
    luaw_url_decode toy_scan true 0
      (97 ∷ 61 ∷ 98 ∷ 32 ∷ 99 ∷ 37 ∷ 50 ∷ 54 ∷ 38 ∷ 100 ∷ 61 ∷ 101 ∷ [])
    ≡ stored params
luaw_url_decode-query_example =
    luaw_url_decode-query toy_scan 0 toy_scan-ReadsHex params params-AreParams

-- `a%3D=b+c&d=`: the escape in the name is an '=', and the name without a value is dropped.
luaw_url_decode-form_pairs_example :
    luaw_url_decode toy_scan true 0 (97 ∷ 37 ∷ 51 ∷ 68 ∷ 61 ∷ 98 ∷ 43 ∷ 99 ∷ 38 ∷ 100 ∷ 61 ∷ [])
    ≡ stored ((97 ∷ 61 ∷ [], 98 ∷ 32 ∷ 99 ∷ []) ∷ [])
unfolding decode_hex_str decode_hex
luaw_url_decode-form_pairs_example =
    luaw_url_decode-form_pairs toy_scan 0 true
      (97 ∷ 37 ∷ 51 ∷ 68 ∷ 61 ∷ 98 ∷ 43 ∷ 99 ∷ 38 ∷ 100 ∷ 61 ∷ [])

-- `a=b&c=d=e`: the second '=' of a part is an error, after the first part is stored.
second_equals :
    luaw_url_decode toy_scan true 0 (97 ∷ 61 ∷ 98 ∷ 38 ∷ 99 ∷ 61 ∷ 100 ∷ 61 ∷ 101 ∷ [])
    ≡ bad_value ((97 ∷ [], 98 ∷ []) ∷ []) (61 ∷ 101 ∷ [])
unfolding decode_hex_str decode_hex
second_equals =
    luaw_url_decode-form_pairs toy_scan 0 true (97 ∷ 61 ∷ 98 ∷ 38 ∷ 99 ∷ 61 ∷ 100 ∷ 61 ∷ 101 ∷ [])

-- The same text with no function to store its pairs.
no_store :
    luaw_url_decode toy_scan false 0 (97 ∷ 61 ∷ 98 ∷ 38 ∷ 99 ∷ 61 ∷ 100 ∷ 61 ∷ 101 ∷ [])
    ≡ missing_store []
no_store =
    luaw_url_decode-form_pairs toy_scan 0 false (97 ∷ 61 ∷ 98 ∷ 38 ∷ 99 ∷ 61 ∷ 100 ∷ 61 ∷ 101 ∷ [])
