-- ===== src/ConnectionImport/Encoded.antt =====
-- Texts in the percent encoding of a URL.
use mathlib.Core.Option.{map as map_option}
use draco.Base.{
  ltb, ◌==◌, if◌then◌else◌, ltb→lt, lt→ltb, Bool-cases, all, ok, ℕ, ◌+◌, ◌*◌, ◌/◌, ◌%◌, ◌<◌, ◌≡◌,
  refl, ap, ◌∙◌, inl, inr, Bool, true, false, ◌||◌, some, List, [], ◌∷◌, ◌++◌, arith,
}
use draco.Text.{
  Text, is_ascii_digit, is_ascii_lowercase, to_ascii_lowercase, contains, utf8, str_bytes,
}
use draco.Text.Utf8.{is_scalar, from_utf8-str_bytes}
use draco.ConnectionImport.Url.{
  hex_digit, hex_sum, hex_value, decoded_pair, decode_bytes, no_nul, utf8_text, percent_decode,
}

-- The bytes that stand for themselves: those that RFC 3986 calls unreserved.
unfoldable pub is_unreserved : ℕ → Bool
unfolding is_ascii_digit is_ascii_lowercase to_ascii_lowercase
is_unreserved b =
    is_ascii_digit b
    || is_ascii_lowercase (to_ascii_lowercase b)
    || b == b'-'
    || b == b'.'
    || b == b'_'
    || b == b'~'

abbrev hex : ℕ → ℕ
hex n = if ltb n 10 then n + 48 else n + 55

unfoldable pub encode_bytes : List ℕ → Text
encode_bytes [] = []
encode_bytes (b ∷ bytes) =
    let rest = encode_bytes bytes in
    if is_unreserved b then b ∷ rest else b'%' ∷ hex (b / 16) ∷ hex (b % 16) ∷ rest

-- The encoding of a text, as `encodeURIComponent` and its like make it.
unfoldable pub percent_encode : Text → Text
unfolding encode_bytes
percent_encode s = encode_bytes (str_bytes s)

if_false_eq {ℓ} : {A : Type ℓ} (test : Bool) (x y : A) → test ≡ false → (if test then x else y) ≡ y
if_false_eq test x y h = rw h

hex_digit-hex : (n : ℕ) → n < 16 → hex_digit (hex n) ≡ some n
unfolding is_ascii_digit is_ascii_lowercase to_ascii_lowercase
hex_digit-hex n h = elim (Bool-cases (ltb n 10)) [
  | inl digit ↦ rw digit (ground arith)
  | inr letter ↦ rw letter (ground arith)
]

hex-no_plus : (n : ℕ) → n < 16 → (hex n == b'+') ≡ false
hex-no_plus n h = ground arith

hex_value-hex : (b : ℕ) → b < 256 → hex_value (hex (b / 16)) (hex (b % 16)) ≡ some b
unfolding hex_value
hex_value-hex b h =
    let high = hex_digit-hex (b / 16) (omega arith) in
    let low = hex_digit-hex (b % 16) (omega arith) in
    let value : b / 16 * 16 + b % 16 ≡ b = omega arith in
    if_false_eq _ _ _ (hex-no_plus (b / 16) (omega arith))
    ∙ ap (λ x. hex_sum x (hex_digit (hex (b % 16)))) high
    ∙ ap (hex_sum (some (b / 16))) low
    ∙ ap some value

is_byte : ℕ → Bool
is_byte b = ltb b 256

all-append :
    {A : Type 0} (p : A → Bool) (xs ys : List A)
    → all p xs ≡ true
    → all p ys ≡ true
    → all p (xs ++ ys) ≡ true
all-append p [] ys h k = k
all-append p (x ∷ xs) ys h k = ground (arith, all-append p xs ys)

utf8-bytes : (c : ℕ) → is_scalar c ≡ true → all is_byte (utf8 c) ≡ true
unfolding utf8 is_byte
utf8-bytes c h = ground arith

str_bytes-bytes : (s : Text) → all is_scalar s ≡ true → all is_byte (str_bytes s) ≡ true
unfolding str_bytes
str_bytes-bytes [] h = refl
str_bytes-bytes (c ∷ s) h =
    all-append is_byte (utf8 c) (str_bytes s) (utf8-bytes c (ground (arith, h)))
      (str_bytes-bytes s (ground (arith, h)))

decode_bytes-plain :
    (b : ℕ) (s : List ℕ)
    → (b == b'%') ≡ false
    → decode_bytes (b ∷ s) ≡ map_option (λ bytes. b ∷ bytes) (decode_bytes s)
unfolding decode_bytes
decode_bytes-plain b [] h = rw h refl
decode_bytes-plain b (c ∷ []) h = rw h refl
decode_bytes-plain b (c ∷ d ∷ s) h = rw h refl

decode_bytes-pair :
    (high low b : ℕ) (s : List ℕ)
    → hex_value high low ≡ some b
    → decode_bytes (b'%' ∷ high ∷ low ∷ s) ≡ map_option (λ bytes. b ∷ bytes) (decode_bytes s)
unfolding decode_bytes
decode_bytes-pair high low b s h = ap (λ v. decoded_pair v (decode_bytes s)) h

unreserved-plain : (b : ℕ) → is_unreserved b ≡ true → (b == b'%') ≡ false
unfolding is_unreserved
unreserved-plain b h = ground arith

decode_bytes-nil : decode_bytes [] ≡ some []
unfolding decode_bytes
decode_bytes-nil = refl

decode_bytes-encode_bytes :
    (bytes : List ℕ) → all is_byte bytes ≡ true → decode_bytes (encode_bytes bytes) ≡ some bytes
unfolding encode_bytes is_byte
decode_bytes-encode_bytes [] h = decode_bytes-nil
decode_bytes-encode_bytes (b ∷ bytes) h =
    let ih = decode_bytes-encode_bytes bytes (ground (arith, h)) in
    elim (Bool-cases (is_unreserved b)) [
      | inl plain ↦ rw plain (
          decode_bytes-plain b (encode_bytes bytes) (unreserved-plain b plain)
          ∙ ap (map_option (λ t. b ∷ t)) ih)
      | inr escaped ↦ rw escaped (
          decode_bytes-pair (hex (b / 16)) (hex (b % 16)) b (encode_bytes bytes)
            (hex_value-hex b (ltb→lt b 256 (ground (arith, h))))
          ∙ ap (map_option (λ t. b ∷ t)) ih)
    ]

-- The characters of an encoded text: unreserved ones, percent signs and hexadecimal digits.
abbrev pub is_safe : ℕ → Bool
is_safe c = is_unreserved c || c == b'%'

hex-is_unreserved : (n : ℕ) → n < 16 → is_unreserved (hex n) ≡ true
unfolding is_unreserved
hex-is_unreserved n h = ground arith

encode_bytes-is_safe :
    (bytes : List ℕ) → all is_byte bytes ≡ true → all is_safe (encode_bytes bytes) ≡ true
unfolding encode_bytes is_byte
encode_bytes-is_safe [] h = refl
encode_bytes-is_safe (b ∷ bytes) h =
    let small = ltb→lt b 256 (ground (arith, h)) in
    ground (
      arith,
      encode_bytes-is_safe bytes,
      hex-is_unreserved (b / 16) (omega (arith, small)),
      hex-is_unreserved (b % 16) (omega (arith, small)),
    )

safe-ascii : (c : ℕ) → is_safe c ≡ true → c < 0x80
unfolding is_unreserved is_ascii_digit is_ascii_lowercase to_ascii_lowercase
safe-ascii c h = ground arith

str_bytes-safe : (s : Text) → all is_safe s ≡ true → str_bytes s ≡ s
unfolding str_bytes utf8
str_bytes-safe [] h = refl
str_bytes-safe (c ∷ s) h =
    let small : ltb c 0x80 ≡ true = lt→ltb c 0x80 (safe-ascii c (ground (arith, h))) in
    rw small (ap (λ t. c ∷ t) (str_bytes-safe s (ground (arith, h))))

pub percent_encode-is_safe :
    (s : Text) → all is_scalar s ≡ true → all is_safe (percent_encode s) ≡ true
unfolding percent_encode
percent_encode-is_safe s h = encode_bytes-is_safe (str_bytes s) (str_bytes-bytes s h)

-- A text of Unicode scalar values other than zero comes back from its percent encoding.
pub percent_decode-percent_encode :
    (s : Text)
    → all is_scalar s ≡ true
    → contains 0 s ≡ false
    → percent_decode (percent_encode s) ≡ ok s
unfolding percent_decode percent_encode
percent_decode-percent_encode s scalar no_zero =
    let bytes = str_bytes s in
    let decoded_bytes =
      ap decode_bytes (str_bytes-safe (encode_bytes bytes) (percent_encode-is_safe s scalar))
      ∙ decode_bytes-encode_bytes bytes (str_bytes-bytes s scalar) in
    ap utf8_text decoded_bytes
    ∙ ap no_nul (from_utf8-str_bytes s scalar)
    ∙ if_false_eq _ _ _ no_zero
