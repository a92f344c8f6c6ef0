-- ===== src/Http/Params.antt =====
-- `luaw_url_decode` of src/luaw_http_parser.c against an encoder of form parameters.
use luaw.Prelude.{
  ℕ, ◌+◌, ◌/◌, ◌%◌, ◌<◌, ◌≡◌, refl, ap, sym, ◌∙◌, Bool, true, false, List, [], ◌∷◌, ◌++◌, Option,
  some, if◌then◌else◌, ◌==◌, ◌||◌, length, ltb, arith, Bool-cases, inl, inr, length-append,
}
use luaw.Http.UrlDecode.{decode_hex, decode_hex_str, decode_if}

abbrev pub hex_digit : ℕ → ℕ
hex_digit n = if ltb n 10 then 48 + n else 55 + n

-- What separates parameters, and what has a meaning of its own inside one.
abbrev pub is_reserved : ℕ → Bool
is_reserved b = (b == 38) || (b == 61) || (b == 43) || (b == 37)

abbrev pub escape_if : Bool → ℕ → List ℕ
escape_if true b = 37 ∷ hex_digit (b / 16) ∷ hex_digit (b % 16) ∷ []
escape_if false b = b ∷ []

abbrev pub escape : ℕ → List ℕ
escape b = escape_if (is_reserved b) b

abbrev pub escaped : List ℕ → List ℕ
escaped [] = []
escaped (b ∷ bs) = escape b ++ escaped bs

abbrev pub pair : List ℕ × List ℕ → List ℕ
pair (n, v) = escaped n ++ 61 ∷ escaped v

abbrev pub more : List (List ℕ × List ℕ) → List ℕ
more [] = []
more (p ∷ ps) = 38 ∷ (pair p ++ more ps)

-- `name=value&name=value`, with every reserved byte escaped.
abbrev pub query : List (List ℕ × List ℕ) → List ℕ
query [] = []
query (p ∷ ps) = pair p ++ more ps

abbrev pub AreBytes : List ℕ → Type 0
AreBytes [] = Unit {0}
AreBytes (b ∷ bs) = (b < 256) × AreBytes bs

abbrev pub IsParam : List ℕ × List ℕ → Type 0
IsParam (n, v) = (0 < length n) × AreBytes n × (0 < length v) × AreBytes v

abbrev pub AreParams : List (List ℕ × List ℕ) → Type 0
AreParams [] = Unit {0}
AreParams (p ∷ ps) = IsParam p × AreParams ps

-- What `sscanf` is documented to do: two hexadecimal digits set the number that they stand for.
abbrev pub ReadsHex : (List ℕ → Option ℕ) → Type 0
ReadsHex scan =
    (b : ℕ) (rest : List ℕ)
    → b < 256
    → scan (hex_digit (b / 16) ∷ hex_digit (b % 16) ∷ rest) ≡ some b

-- Bytes that neither end a name or a value nor stand for a space.
abbrev pub IsToken : List ℕ → Type 0
IsToken [] = Unit {0}
IsToken (c ∷ cs) = (((c == 38) || (c == 61) || (c == 43)) ≡ false) × IsToken cs

abbrev pub has_escape : List ℕ → Bool
has_escape [] = false
has_escape (c ∷ cs) = (c == 37) || has_escape cs

pub has_escape-append : (xs ys : List ℕ) → has_escape (xs ++ ys) ≡ (has_escape xs || has_escape ys)
has_escape-append [] ys = refl
has_escape-append (x ∷ xs) ys = ground (arith, has_escape-append xs ys)

digit-safe : (n : ℕ) → n < 16 → IsToken (hex_digit n ∷ [])
digit-safe n h = (ground arith, _)

escape_if-IsToken :
    (r : Bool) (b : ℕ) (xs : List ℕ)
    → is_reserved b ≡ r
    → b < 256
    → IsToken xs
    → IsToken (escape_if r b ++ xs)
escape_if-IsToken true b xs e h v =
    (refl, ((digit-safe (b / 16) (omega arith)).0, ((digit-safe (b % 16) (omega arith)).0, v)))
escape_if-IsToken false b xs e h v = (ground arith, v)

pub escaped-IsToken : (bs : List ℕ) → AreBytes bs → IsToken (escaped bs)
escaped-IsToken [] v = v
escaped-IsToken (b ∷ bs) v =
    escape_if-IsToken (is_reserved b) b (escaped bs) refl v.0 (escaped-IsToken bs v.1)

length-escape_if : (r : Bool) (b : ℕ) → 0 < length (escape_if r b)
length-escape_if true b = omega arith
length-escape_if false b = omega arith

pub length-escaped : (bs : List ℕ) → 0 < length bs → 0 < length (escaped bs)
length-escaped [] h = h
length-escaped (b ∷ bs) h =
    omega (arith, length-append (escape b) (escaped bs), length-escape_if (is_reserved b) b)

module _ (scan : List ℕ → Option ℕ) (junk : ℕ) where
  decode_hex-literal :
      (h c : ℕ) (xs after : List ℕ)
      → (c == 37) ≡ false
      → decode_hex scan true junk h (c ∷ xs) after ≡ c ∷ decode_hex scan true junk h xs after
  unfolding decode_hex
  decode_hex-literal h c [] after e = refl
  decode_hex-literal h c (d ∷ []) after e = refl
  decode_hex-literal h c (d ∷ f ∷ xs) after e = rw (decode_hex, e)

  decode_hex-no_escape :
      (h : ℕ) (xs after : List ℕ)
      → has_escape xs ≡ false
      → decode_hex scan true junk h xs after ≡ xs
  decode_hex-no_escape h [] after e = unfold decode_hex in refl
  decode_hex-no_escape h (c ∷ xs) after e =
      decode_hex-literal h c xs after (ground arith)
      ∙ ap (λ ys. c ∷ ys) (decode_hex-no_escape h xs after (ground arith))

  decode_hex-escape_if :
      (r : Bool) (h b : ℕ) (xs after : List ℕ)
      → ReadsHex scan
      → is_reserved b ≡ r
      → b < 256
      → (h' : ℕ) × (decode_hex scan true junk h (escape_if r b ++ xs) after
          ≡ b ∷ decode_hex scan true junk h' xs after)
  unfolding decode_hex
  decode_hex-escape_if true h b xs after k e v = (b, rw (k b (xs ++ after) v) (ground arith))
  decode_hex-escape_if false h b xs after k e v =
      (h, decode_hex-literal h b xs after (ground arith))

  decode_hex-escaped :
      (h : ℕ) (bs after : List ℕ)
      → ReadsHex scan
      → AreBytes bs
      → decode_hex scan true junk h (escaped bs) after ≡ bs
  decode_hex-escaped h [] after k v = decode_hex-no_escape h [] after refl
  decode_hex-escaped h (b ∷ bs) after k v =
      let (h', e) = decode_hex-escape_if (is_reserved b) h b (escaped bs) after k refl v.0 in
      e ∙ ap (λ ys. b ∷ ys) (decode_hex-escaped h' bs after k v.1)

  -- With or without the flag for escapes.
  pub decode_if-escaped :
      (bs after : List ℕ)
      → ReadsHex scan
      → AreBytes bs
      → decode_if scan true junk (has_escape (escaped bs)) (escaped bs) after ≡ bs
  unfolding decode_hex_str
  decode_if-escaped bs after k v = elim (Bool-cases (has_escape (escaped bs))) [
    | inl e ↦ rw e (decode_hex-escaped junk bs after k v)
    | inr e ↦ rw e (
        sym (decode_hex-no_escape junk (escaped bs) after e) ∙ decode_hex-escaped junk bs after k v)
  ]

  -- The flag for escapes only saves work.
  pub decode_if-has_escape :
      (xs after : List ℕ)
      → decode_if scan true junk (has_escape xs) xs after ≡ decode_hex_str scan true junk xs after
  unfolding decode_hex_str
  decode_if-has_escape xs after = elim (Bool-cases (has_escape xs)) [
    | inl e ↦ rw e refl
    | inr e ↦ rw e (sym (decode_hex-no_escape junk xs after e))
  ]
