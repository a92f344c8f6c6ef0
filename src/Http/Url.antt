-- ===== src/Http/Url.antt =====
-- `luaw_parse_url` of src/luaw_http_parser.c. `http_parser_parse_url` is a parameter.
use luaw.Prelude.{
  ℕ, ◌+◌, ◌/◌, ◌%◌, ◌^◌, ◌≤◌, ◌≡◌, refl, ◌∙◌, not, ◌&&◌, String, Bool, true, false, List, [], ◌∷◌,
  Option, none, some, if◌then◌else◌, ◌==◌, leb, length, take, drop, arith, Bool-cases, inl, inr,
}
use luaw.Lua.{set_field, get_field, same_key}

-- `http_parser_url_fields`, and its numbers.
pub data UrlField : Type 0 where
  schema host port path query fragment userinfo : UrlField

abbrev pub field_code : UrlField → ℕ
field_code schema = 0
field_code host = 1
field_code port = 2
field_code path = 3
field_code query = 4
field_code fragment = 5
field_code userinfo = 6

-- `url_field_names`.
abbrev pub url_field_names : UrlField → String
url_field_names schema = "schema"
url_field_names host = "host"
url_field_names port = "port"
url_field_names path = "path"
url_field_names query = "queryString"
url_field_names fragment = "fragment"
url_field_names userinfo = "userInfo"

-- `http_parser_url`, which the library fills in: a mask of the fields that are set, and for each the part
-- of the text where it stands.
pub record HttpParserUrl : Type 0 where
  pub field_set : ℕ
  pub off : UrlField → ℕ
  pub len : UrlField → ℕ

abbrev pub is_set : HttpParserUrl → UrlField → Bool
is_set u f = u.field_set / 2 ^ field_code f % 2 == 1

-- What Lua gets: an error, nil, or the parts by their names. A read outside the text is a fault.
pub data Parsed : Type 0 where
  raised is_nil fault : Parsed
  parts : List (String × List ℕ) → Parsed

unfoldable pub push_url_part : List ℕ → HttpParserUrl → UrlField → Parsed → Parsed
push_url_part buff u f (parts t) =
    if is_set u f
    then (if leb (u.off f + u.len f) (length buff)
        then parts (set_field (url_field_names f) (take (u.len f) (drop (u.off f) buff)) t)
        else fault)
    else parts t
push_url_part buff u f other = other

abbrev pub push_all : List ℕ → HttpParserUrl → List UrlField → Parsed → Parsed
unfolding push_url_part
push_all buff u [] t = t
push_all buff u (f ∷ fs) t = push_all buff u fs (push_url_part buff u f t)

-- The order in which the parts are pushed.
abbrev pub url_fields : List UrlField
url_fields = schema ∷ host ∷ port ∷ path ∷ query ∷ fragment ∷ userinfo ∷ []

-- What `http_parser_parse_url` makes of a text, `none` if it refuses it; whether the request is CONNECT, and
-- whether there is memory.
unfoldable pub luaw_parse_url :
    (List ℕ → Bool → Option HttpParserUrl) → Bool → List ℕ → Bool → Parsed
unfolding push_url_part
luaw_parse_url parse false buff is_connect = raised
luaw_parse_url parse true buff is_connect = elim (parse buff is_connect) [
  | none ↦ is_nil
  | some u ↦ push_all buff u url_fields (parts [])
]

-- Every field that is set stands in the text, as the library promises.
abbrev pub IsInside : List ℕ → HttpParserUrl → Type 0
IsInside buff u = (f : UrlField) → is_set u f ≡ true → u.off f + u.len f ≤ length buff

-- The part of a field that is set.
abbrev pub part_of : List ℕ → HttpParserUrl → UrlField → Option (List ℕ)
part_of buff u f = if is_set u f then some (take (u.len f) (drop (u.off f) buff)) else none

abbrev put_part : UrlField → Option (List ℕ) → List (String × List ℕ) → List (String × List ℕ)
put_part f none t = t
put_part f (some b) t = set_field (url_field_names f) b t

abbrev put_parts :
    (UrlField → Option (List ℕ)) → List UrlField → List (String × List ℕ) → List (String × List ℕ)
put_parts g [] t = t
put_parts g (f ∷ fs) t = put_parts g fs (put_part f (g f) t)

push-put :
    (buff : List ℕ) (u : HttpParserUrl) (f : UrlField) (t : List (String × List ℕ))
    → IsInside buff u
    → push_url_part buff u f (parts t) ≡ parts (put_part f (part_of buff u f) t)
unfolding push_url_part
push-put buff u f t h = elim (Bool-cases (is_set u f)) [
  | inl e ↦
      let room : leb (u.off f + u.len f) (length buff) ≡ true = ground (arith, h f e) in
      rw (e, room) refl
  | inr e ↦ rw e refl
]

push_all-put :
    (buff : List ℕ) (u : HttpParserUrl) (fs : List UrlField) (t : List (String × List ℕ))
    → IsInside buff u
    → push_all buff u fs (parts t) ≡ parts (put_parts (part_of buff u) fs t)
unfolding push_all
push_all-put buff u [] t h = refl
push_all-put buff u (f ∷ fs) t h =
    rw (push-put buff u f t h) (push_all-put buff u fs (put_part f (part_of buff u f) t) h)

abbrev all_differ : String → List UrlField → Bool
all_differ key [] = true
all_differ key (f ∷ fs) = not (same_key key (url_field_names f)) && all_differ key fs

module _ (g : UrlField → Option (List ℕ)) where
  get_field-skip :
      (key : String) (f : UrlField) (o : Option (List ℕ)) (t : List (String × List ℕ))
      → same_key key (url_field_names f) ≡ false
      → get_field key (put_part f o t) ≡ get_field key t
  get_field-skip key f none t h = refl
  get_field-skip key f (some b) t h = rw h refl

  get_field-skip_all :
      (key : String) (fs : List UrlField) (t : List (String × List ℕ))
      → all_differ key fs ≡ true
      → get_field key (put_parts g fs t) ≡ get_field key t
  get_field-skip_all key [] t h = refl
  get_field-skip_all key (f ∷ fs) t h =
      get_field-skip_all key fs (put_part f (g f) t) (ground arith)
      ∙ get_field-skip key f (g f) t (ground arith)

  get_field-found :
      (f : UrlField) (o : Option (List ℕ)) (t : List (String × List ℕ))
      → get_field (url_field_names f) t ≡ none
      → get_field (url_field_names f) (put_part f o t) ≡ o
  get_field-found f none t h = h
  get_field-found schema (some b) t h = refl
  get_field-found _ (some b) t h = refl

  get_field-at :
      (f : UrlField) (before after : List UrlField)
      → all_differ (url_field_names f) before ≡ true
      → all_differ (url_field_names f) after ≡ true
      → get_field (url_field_names f) (put_parts g after (put_part f (g f) (put_parts g before [])))
        ≡ g f
  get_field-at f before after h k =
      get_field-skip_all (url_field_names f) after _ k
      ∙ get_field-found f (g f) _ (get_field-skip_all (url_field_names f) before [] h)

  get_field-put : (f : UrlField) → get_field (url_field_names f) (put_parts g url_fields []) ≡ g f
  get_field-put schema = get_field-at schema [] (drop 1 url_fields) refl refl
  get_field-put host = get_field-at host (take 1 url_fields) (drop 2 url_fields) refl refl
  get_field-put port = get_field-at port (take 2 url_fields) (drop 3 url_fields) refl refl
  get_field-put path = get_field-at path (take 3 url_fields) (drop 4 url_fields) refl refl
  get_field-put query = get_field-at query (take 4 url_fields) (drop 5 url_fields) refl refl
  get_field-put fragment = get_field-at fragment (take 5 url_fields) (drop 6 url_fields) refl refl
  get_field-put userinfo = get_field-at userinfo (take 6 url_fields) [] refl refl

-- A field by its bit in the mask: its bytes if it is set.
abbrev pub field_at : List ℕ → HttpParserUrl → ℕ → UrlField → Option (List ℕ)
field_at buff u bit f =
    if u.field_set / bit % 2 == 1 then some (take (u.len f) (drop (u.off f) buff)) else none

-- What the Lua code is to get for what the library made of the text: nil, or a table with each part under
-- its name, the bytes of the field if its bit is set and nothing if it is not.
abbrev pub Answers : List ℕ → Option HttpParserUrl → Parsed → Type 0
Answers buff none r = r ≡ is_nil
Answers buff (some u) r =
    (t : List (String × List ℕ)) × (r ≡ parts t)
    × (get_field "schema" t ≡ field_at buff u 1 schema)
    × (get_field "host" t ≡ field_at buff u 2 host)
    × (get_field "port" t ≡ field_at buff u 4 port)
    × (get_field "path" t ≡ field_at buff u 8 path)
    × (get_field "queryString" t ≡ field_at buff u 16 query)
    × (get_field "fragment" t ≡ field_at buff u 32 fragment)
    × (get_field "userInfo" t ≡ field_at buff u 64 userinfo)

abbrev pub AreInside : List ℕ → Option HttpParserUrl → Type 0
AreInside buff none = Unit {0}
AreInside buff (some u) = IsInside buff u

-- Where the library puts every field inside the text, `parseURL` gives nil for a URL that it refuses, and
-- else a table with schema, host, port, path, queryString, fragment and userInfo: under each name the bytes
-- where the library puts that field, if the field's bit is set in the mask, and nothing if it is not.
pub luaw_parse_url-Answers :
    (parse : List ℕ → Bool → Option HttpParserUrl) (buff : List ℕ) (is_connect : Bool)
    → AreInside buff (parse buff is_connect)
    → Answers buff (parse buff is_connect) (luaw_parse_url parse true buff is_connect)
unfolding luaw_parse_url
luaw_parse_url-Answers parse buff is_connect h = answer (parse buff is_connect) refl h
  where
    answer :
        (o : Option HttpParserUrl)
        → parse buff is_connect ≡ o
        → AreInside buff o
        → Answers buff o (luaw_parse_url parse true buff is_connect)
    answer none e h = rw (luaw_parse_url, e) refl
    answer (some u) e h = (
      put_parts (part_of buff u) url_fields [],
      rw (luaw_parse_url, e) (push_all-put buff u url_fields [] h),
      get_field-put (part_of buff u) schema,
      get_field-put (part_of buff u) host,
      get_field-put (part_of buff u) port,
      get_field-put (part_of buff u) path,
      get_field-put (part_of buff u) query,
      get_field-put (part_of buff u) fragment,
      get_field-put (part_of buff u) userinfo,
    )
