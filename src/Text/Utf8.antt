-- ===== src/Text/Utf8.antt =====
-- `String::from_utf8`: the inverse of `str::bytes`, which refuses what is no encoding.
use mathlib.Core.Option.{map as map_option}
use draco.Base.{
  ltb, leb, if◌then◌else◌, ltb→lt, Bool-cases, all, ℕ, zero, suc, ◌+◌, ◌-◌, ◌*◌, ◌/◌, ◌%◌, ◌≤◌, ◌<◌,
  ◌≡◌, refl, ap, ◌∙◌, inl, inr, Bool, true, false, not, ◌&&◌, ◌||◌, Option, none, some, List, [],
  ◌∷◌, ◌++◌, arith,
}
use draco.Text.{Text, codes, utf8, str_bytes}

-- A Unicode scalar value: a code point that is no surrogate.
abbrev pub is_scalar : ℕ → Bool
is_scalar c = ltb c 0xd800 || leb 0xe000 c && ltb c 0x110000

-- `left` bytes of a character are still to come; `acc` is its value so far, and `low` the least
-- value that needs as many bytes.
unfoldable pub decode_from : ℕ → ℕ → ℕ → List ℕ → Option Text
decode_from zero acc low [] = some []
decode_from (suc left) acc low [] = none
decode_from zero acc low (b ∷ bytes) =
    let ascii = decode_from 0 0 0 bytes in
    let two = decode_from 1 (b - 0xc0) 0x80 bytes in
    let three = decode_from 2 (b - 0xe0) 0x800 bytes in
    let four = decode_from 3 (b - 0xf0) 0x10000 bytes in
    if ltb b 0x80
    then map_option (λ s. b ∷ s) ascii
    else if ltb b 0xc0
    then none
    else if ltb b 0xe0
    then two
    else if ltb b 0xf0
    then three
    else if ltb b 0xf8
    then four
    else none
decode_from (suc left) acc low (b ∷ bytes) =
    let value = acc * 64 + (b - 0x80) in
    let more = decode_from left value low bytes in
    let done = decode_from 0 0 0 bytes in
    if not (leb 0x80 b && ltb b 0xc0)
    then none
    else if ltb 0 left
    then more
    else if leb low value && is_scalar value
    then map_option (λ s. value ∷ s) done
    else none

unfoldable pub from_utf8 : List ℕ → Option Text
unfolding decode_from
from_utf8 bytes = decode_from 0 0 0 bytes

from_utf8_runs : from_utf8 (str_bytes (codes "aé€𝄞")) ≡ some (codes "aé€𝄞")
unfolding from_utf8 str_bytes
from_utf8_runs = refl

head_ascii :
    (b : ℕ) (bytes : List ℕ) (s : Text)
    → b < 0x80
    → decode_from 0 0 0 bytes ≡ some s
    → decode_from 0 0 0 (b ∷ bytes) ≡ some (b ∷ s)
unfolding decode_from
head_ascii b bytes s h rest =
    let small : ltb b 0x80 ≡ true = ground arith in rw small (ap (map_option (λ t. b ∷ t)) rest)

head_two :
    (b : ℕ) (bytes : List ℕ)
    → 0xc0 ≤ b
    → b < 0xe0
    → decode_from 0 0 0 (b ∷ bytes) ≡ decode_from 1 (b - 0xc0) 0x80 bytes
unfolding decode_from
head_two b bytes low high =
    let not_ascii : ltb b 0x80 ≡ false = ground arith in
    let no_tail : ltb b 0xc0 ≡ false = ground arith in
    let two : ltb b 0xe0 ≡ true = ground arith in rw (not_ascii, no_tail, two) refl

head_three :
    (b : ℕ) (bytes : List ℕ)
    → 0xe0 ≤ b
    → b < 0xf0
    → decode_from 0 0 0 (b ∷ bytes) ≡ decode_from 2 (b - 0xe0) 0x800 bytes
unfolding decode_from
head_three b bytes low high =
    let not_ascii : ltb b 0x80 ≡ false = ground arith in
    let no_tail : ltb b 0xc0 ≡ false = ground arith in
    let not_two : ltb b 0xe0 ≡ false = ground arith in
    let three : ltb b 0xf0 ≡ true = ground arith in rw (not_ascii, no_tail, not_two, three) refl

head_four :
    (b : ℕ) (bytes : List ℕ)
    → 0xf0 ≤ b
    → b < 0xf8
    → decode_from 0 0 0 (b ∷ bytes) ≡ decode_from 3 (b - 0xf0) 0x10000 bytes
unfolding decode_from
head_four b bytes low high =
    let not_ascii : ltb b 0x80 ≡ false = ground arith in
    let no_tail : ltb b 0xc0 ≡ false = ground arith in
    let not_two : ltb b 0xe0 ≡ false = ground arith in
    let not_three : ltb b 0xf0 ≡ false = ground arith in
    let four : ltb b 0xf8 ≡ true = ground arith in
    rw (not_ascii, no_tail, not_two, not_three, four) refl

-- A byte within a character, with more to come or as its last.
tail_more :
    (left acc low d : ℕ) (bytes : List ℕ)
    → d < 64
    → decode_from (suc (suc left)) acc low ((0x80 + d) ∷ bytes)
      ≡ decode_from (suc left) (acc * 64 + d) low bytes
unfolding decode_from
tail_more left acc low d bytes h =
    let tail : (not (leb 0x80 (0x80 + d) && ltb (0x80 + d) 0xc0)) ≡ false = ground arith in
    let more : ltb 0 (suc left) ≡ true = ground arith in
    let same : 0x80 + d - 0x80 ≡ d = omega arith in rw (tail, more, same) refl

tail_last :
    (acc low d c : ℕ) (bytes : List ℕ) (s : Text)
    → d < 64
    → acc * 64 + d ≡ c
    → low ≤ c
    → is_scalar c ≡ true
    → decode_from 0 0 0 bytes ≡ some s
    → decode_from 1 acc low ((0x80 + d) ∷ bytes) ≡ some (c ∷ s)
unfolding decode_from
tail_last acc low d c bytes s h value enough scalar rest =
    let tail : (not (leb 0x80 (0x80 + d) && ltb (0x80 + d) 0xc0)) ≡ false = ground arith in
    let same : 0x80 + d - 0x80 ≡ d = omega arith in
    let bounded : leb low c ≡ true = ground arith in
    rw (tail, same, value, bounded, scalar) (ap (map_option (λ t. c ∷ t)) rest)

from-utf8 :
    (c : ℕ) (bytes : List ℕ) (s : Text)
    → is_scalar c ≡ true
    → decode_from 0 0 0 bytes ≡ some s
    → decode_from 0 0 0 (utf8 c ++ bytes) ≡ some (c ∷ s)
unfolding utf8
from-utf8 c bytes s scalar rest = elim (Bool-cases (ltb c 0x80)) [
  | inl one ↦ rw one (head_ascii c bytes s (ltb→lt c 0x80 one) rest)
  | inr more ↦ elim (Bool-cases (ltb c 0x800)) [
    | inl two ↦
        rw (more, two)
          (head_two (0xc0 + c / 64) _ (omega arith) (ground arith)
            ∙ tail_last (0xc0 + c / 64 - 0xc0) 0x80 (c % 64) c bytes s (omega arith) (omega arith)
                (ground arith) scalar rest)
    | inr more2 ↦ elim (Bool-cases (ltb c 0x10000)) [
      | inl three ↦
          rw (more, more2, three)
            (head_three (0xe0 + c / 4096) _ (omega arith) (ground arith)
              ∙ tail_more 0 (0xe0 + c / 4096 - 0xe0) 0x800 (c / 64 % 64) _ (omega arith)
              ∙ tail_last ((0xe0 + c / 4096 - 0xe0) * 64 + c / 64 % 64) 0x800 (c % 64) c bytes s
                  (omega arith) (omega arith) (ground arith) scalar rest)
      | inr four ↦
          rw (more, more2, four)
            (head_four (0xf0 + c / 262144) _ (omega arith) (ground arith)
              ∙ tail_more 1 (0xf0 + c / 262144 - 0xf0) 0x10000 (c / 4096 % 64) _ (omega arith)
              ∙ tail_more 0 ((0xf0 + c / 262144 - 0xf0) * 64 + c / 4096 % 64) 0x10000 (c / 64 % 64)
                  _ (omega arith)
              ∙ tail_last (((0xf0 + c / 262144 - 0xf0) * 64 + c / 4096 % 64) * 64 + c / 64 % 64)
                  0x10000 (c % 64) c bytes s (omega arith) (omega arith) (ground arith) scalar rest)
    ]
  ]
]

-- A text of scalar values comes back from its bytes.
pub from_utf8-str_bytes : (s : Text) → all is_scalar s ≡ true → from_utf8 (str_bytes s) ≡ some s
unfolding from_utf8 str_bytes decode_from
from_utf8-str_bytes [] h = refl
from_utf8-str_bytes (c ∷ s) h =
    from-utf8 c (str_bytes s) s (ground (arith, h)) (from_utf8-str_bytes s (ground (arith, h)))
