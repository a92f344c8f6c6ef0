-- ===== src/Http/Queries.antt =====
-- The loop of `luaw_url_decode` (src/luaw_http_parser.c) on a query that was encoded.
use luaw.Prelude.{
  ℕ, ◌<◌, ◌≡◌, refl, ◌∙◌, Bool, true, false, List, [], ◌∷◌, ◌++◌, Option, ◌==◌, ◌||◌, length, arith,
}
use mathlib.Core.List.{append_assoc, append-nil}
use luaw.Http.UrlDecode.{
  Decoder, DecoderState, Ending, starting_name, in_name, in_value, stored, goes, bad_value_start,
  handle_name_value_pair, decode_step, decode_loop, luaw_url_decode,
}
use luaw.Http.Params.{
  IsToken, has_escape, escaped, more, query, AreBytes, IsParam, AreParams, ReadsHex,
  escaped-IsToken, length-escaped, decode_if-escaped,
}

module _ (scan : List ℕ → Option ℕ) (junk : ℕ) where
  abbrev loop : List ℕ → Decoder → Ending
  loop = decode_loop scan true junk

  module _ (params : List (List ℕ × List ℕ)) where
    -- In a name, and in a value.
    abbrev naming : List ℕ → Bool → Decoder
    naming n h = record {
      ds = in_name;
      name = n;
      hex_name = h;
      value = [];
      hex_value = false;
      params = params;
    }

    abbrev valuing : List ℕ → Bool → List ℕ → Bool → Decoder
    valuing n h v k = record {
      ds = in_value;
      name = n;
      hex_name = h;
      value = v;
      hex_value = k;
      params = params;
    }

    name-byte :
        (c : ℕ) (rest n : List ℕ) (h : Bool)
        → ((c == 38) || (c == 61) || (c == 43)) ≡ false
        → loop (c ∷ rest) (naming n h) ≡ loop rest (naming (n ++ c ∷ []) (h || (c == 37)))
    unfolding decode_loop decode_step
    name-byte c rest n h e = ground arith

    value-byte :
        (c : ℕ) (rest n v : List ℕ) (h k : Bool)
        → ((c == 38) || (c == 61) || (c == 43)) ≡ false
        → loop (c ∷ rest) (valuing n h v k) ≡ loop rest (valuing n h (v ++ c ∷ []) (k || (c == 37)))
    unfolding decode_loop decode_step
    value-byte c rest n v h k e = ground arith

    or_false : (b : Bool) → (b || false) ≡ b
    or_false true = refl
    or_false false = refl

    or_assoc : (a b c : Bool) → ((a || b) || c) ≡ (a || (b || c))
    or_assoc true b c = refl
    or_assoc false b c = refl

    name-bytes :
        (xs tail n : List ℕ) (h : Bool)
        → IsToken xs
        → loop (xs ++ tail) (naming n h) ≡ loop tail (naming (n ++ xs) (h || has_escape xs))
    name-bytes [] tail n h v = rw (append-nil, or_false h)
    name-bytes (c ∷ xs) tail n h v =
        name-byte c (xs ++ tail) n h v.0
        ∙ rw (append_assoc n (c ∷ []) xs, or_assoc h (c == 37) (has_escape xs)) at
            (name-bytes xs tail (n ++ c ∷ []) (h || (c == 37)) v.1)

    value-bytes :
        (xs tail n v : List ℕ) (h k : Bool)
        → IsToken xs
        → loop (xs ++ tail) (valuing n h v k)
          ≡ loop tail (valuing n h (v ++ xs) (k || has_escape xs))
    value-bytes [] tail n v h k t = rw (append-nil, or_false k)
    value-bytes (c ∷ xs) tail n v h k t =
        value-byte c (xs ++ tail) n v h k t.0
        ∙ rw (append_assoc v (c ∷ []) xs, or_assoc k (c == 37) (has_escape xs)) at
            (value-bytes xs tail n (v ++ c ∷ []) h (k || (c == 37)) t.1)

    -- From '=' on.
    value-pair :
        (ys tail n : List ℕ) (h : Bool)
        → IsToken ys
        → 0 < length ys
        → loop (61 ∷ (ys ++ tail)) (naming n h) ≡ loop tail (valuing n h ys (has_escape ys))
    unfolding decode_loop decode_step
    value-pair [] tail n h v l = absurd (omega arith)
    value-pair (c ∷ ys) tail n h v l =
        let start : loop (61 ∷ c ∷ (ys ++ tail)) (naming n h)
            ≡ loop (ys ++ tail) (valuing n h (c ∷ []) (c == 37)) =
          ground arith in
        start ∙ value-bytes ys tail n (c ∷ []) h (c == 37) v.1

  -- Behind '&', where a pair begins and the pair before it is stored.
  abbrev pending : List (List ℕ × List ℕ) → List ℕ → List ℕ → Decoder
  pending params n v = record {
    ds = starting_name;
    name = n;
    hex_name = has_escape n;
    value = v;
    hex_value = has_escape v;
    params = params;
  }

  Stores : List (List ℕ × List ℕ) → List ℕ → List ℕ → List (List ℕ × List ℕ) → Type 0
  Stores params n v acc =
      (after : List ℕ)
      → handle_name_value_pair scan true junk (pending params n v) after
        ≡ goes (record (pending params n v) { params = acc })

  start-name :
      (params acc : List (List ℕ × List ℕ)) (n v : List ℕ) (c : ℕ) (rest : List ℕ)
      → Stores params n v acc
      → ((c == 38) || (c == 61) || (c == 43)) ≡ false
      → loop (c ∷ rest) (pending params n v) ≡ loop rest (naming acc (c ∷ []) (c == 37))
  unfolding decode_loop decode_step Stores
  start-name params acc n v c rest e k =
      let ordinary : ((c == 38) || (c == 61)) ≡ false = ground arith in
      let no_plus : (c == 43) ≡ false = ground arith in
      rw (decode_loop, decode_step, e (38 ∷ c ∷ rest), ordinary, no_plus)

  start-pair :
      (params acc : List (List ℕ × List ℕ)) (n v xs ys tail : List ℕ)
      → Stores params n v acc
      → (IsToken xs) × (0 < length xs)
      → (IsToken ys) × (0 < length ys)
      → loop (xs ++ 61 ∷ (ys ++ tail)) (pending params n v)
        ≡ loop tail (valuing acc xs (has_escape xs) ys (has_escape ys))
  start-pair params acc n v [] ys tail e (k, l) w = absurd (omega arith)
  start-pair params acc n v (c ∷ xs) ys tail e (k, l) w =
      start-name params acc n v c (xs ++ 61 ∷ (ys ++ tail)) e k.0
      ∙ name-bytes acc xs (61 ∷ (ys ++ tail)) (c ∷ []) (c == 37) k.1
      ∙ value-pair acc ys tail (c ∷ xs) (has_escape (c ∷ xs)) w.0 w.1

  module _ (reads : ReadsHex scan) where
    abbrev tokens :
        (n v : List ℕ)
        → IsParam (n, v)
        → ((IsToken (escaped n)) × (0 < length (escaped n)))
          × ((IsToken (escaped v)) × (0 < length (escaped v)))
    tokens n v (ln, bn, lv, bv) =
        ((escaped-IsToken n bn, length-escaped n ln), (escaped-IsToken v bv, length-escaped v lv))

    -- Whatever the state of the loop, and so also at the end of the query.
    handled :
        (ds : DecoderState) (params : List (List ℕ × List ℕ)) (n v after : List ℕ)
        → IsParam (n, v)
        → let s = record (pending params (escaped n) (escaped v)) { ds = ds } in
          handle_name_value_pair scan true junk s after
          ≡ goes (record s { params = params ++ (n, v) ∷ [] })
    unfolding handle_name_value_pair
    handled ds params n v after (ln, bn, lv, bv) =
        rw
          (
            decode_if-escaped scan junk n (61 ∷ (escaped v ++ after)) reads bn,
            decode_if-escaped scan junk v after reads bv,
          )
          (ground (arith, length-escaped n ln, length-escaped v lv))

    params-loop :
        (ps : List (List ℕ × List ℕ)) (acc : List (List ℕ × List ℕ)) (n v : List ℕ)
        → IsParam (n, v)
        → AreParams ps
        → loop (more ps) (record (pending acc (escaped n) (escaped v)) { ds = in_value })
          ≡ stored (acc ++ (n, v) ∷ ps)
    unfolding decode_loop decode_step Stores
    params-loop [] acc n v h w = rw (handled in_value acc n v [] h)
    params-loop ((m, u) ∷ ps) acc n v h w =
        let (tm, tu) = tokens m u w.0 in
        rw (append_assoc (escaped m) (61 ∷ escaped u) (more ps)) (
          start-pair acc (acc ++ (n, v) ∷ []) (escaped n) (escaped v) (escaped m) (escaped u)
            (more ps) (λ after. handled starting_name acc n v after h) tm tu
          ∙ rw (append_assoc acc ((n, v) ∷ []) ((m, u) ∷ ps)) at
              (params-loop ps (acc ++ (n, v) ∷ []) m u w.0 w.1))

    -- A query of parameters, each with a name and a value that are not empty, is decoded to these
    -- parameters in their order, if its reserved bytes are escaped and `sscanf` reads two hexadecimal
    -- digits.
    pub luaw_url_decode-query :
        (ps : List (List ℕ × List ℕ))
        → AreParams ps
        → luaw_url_decode scan true junk (query ps) ≡ stored ps
    unfolding luaw_url_decode handle_name_value_pair Stores
    luaw_url_decode-query [] w = unfold decode_loop in refl
    luaw_url_decode-query ((m, u) ∷ ps) w =
        let (tm, tu) = tokens m u w.0 in
        rw (append_assoc (escaped m) (61 ∷ escaped u) (more ps)) (
          start-pair [] [] [] [] (escaped m) (escaped u) (more ps) (λ after. refl) tm tu
          ∙ params-loop ps [] m u w.0 w.1)

  -- A parameter with a name that is not empty and without a value is refused where '&' follows.
  luaw_url_decode-empty_value :
      (n rest : List ℕ)
      → 0 < length n
      → AreBytes n
      → luaw_url_decode scan true junk (escaped n ++ 61 ∷ 38 ∷ rest)
        ≡ bad_value_start [] (38 ∷ rest)
  unfolding luaw_url_decode
  luaw_url_decode-empty_value n rest l b =
      refused (escaped n) (escaped-IsToken n b) (length-escaped n l)
    where
      refused :
          (xs : List ℕ)
          → IsToken xs
          → 0 < length xs
          → loop (xs ++ 61 ∷ 38 ∷ rest) (pending [] [] []) ≡ bad_value_start [] (38 ∷ rest)
      refused [] v k = absurd (omega arith)
      refused (c ∷ xs) v k =
          start-name [] [] [] [] c (xs ++ 61 ∷ 38 ∷ rest)
            (unfold Stores handle_name_value_pair in λ after. refl) v.0
          ∙ name-bytes [] xs (61 ∷ 38 ∷ rest) (c ∷ []) (c == 37) v.1
          ∙ (unfold decode_loop decode_step in refl)
