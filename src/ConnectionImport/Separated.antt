-- ===== src/ConnectionImport/Separated.antt =====
-- How the separators of a URL are found in texts that hold none of them.
use draco.Base.{
  ◌==◌, is_empty, all, ok, ℕ, ◌≤◌, ◌<◌, ◌≡◌, refl, ap, ◌∙◌, Bool, true, false, not, ◌||◌, none,
  some, [], ◌∷◌, ◌++◌, arith,
}
use draco.Text.{
  Text, codes, is_whitespace, is_ascii_digit, is_ascii_lowercase, to_ascii_lowercase, trim_start,
  trim_end, trim, contains, strip_prefix, split_once, rsplit_once, utf8, str_bytes,
}
use draco.ConnectionImport.{parse_u16, parse_port}
use draco.ConnectionImport.Url.{strip_prefix_ignore_case, cut_at, cut, after_scheme}
use draco.ConnectionImport.Encoded.{is_unreserved, encode_bytes, percent_encode, is_safe}

pub split_once-absent : (c : ℕ) (s : Text) → contains c s ≡ false → split_once c s ≡ none
unfolding split_once contains
split_once-absent c [] h = refl
split_once-absent c (d ∷ s) h = ground (arith, split_once-absent c s)

pub split_once-first :
    (c : ℕ) (before after : Text)
    → contains c before ≡ false
    → split_once c (before ++ (c ∷ after)) ≡ some (before, after)
unfolding split_once contains
split_once-first c [] after h = ground arith
split_once-first c (d ∷ before) after h = ground (arith, split_once-first c before after)

pub cut-first :
    (c : ℕ) (before after : Text)
    → contains c before ≡ false
    → cut c (before ++ (c ∷ after)) ≡ (before, some after)
unfolding cut
cut-first c before after h = ap (cut_at (before ++ (c ∷ after))) (split_once-first c before after h)

pub cut-absent : (c : ℕ) (s : Text) → contains c s ≡ false → cut c s ≡ (s, none)
unfolding cut
cut-absent c s h = ap (cut_at s) (split_once-absent c s h)

pub rsplit_once-absent : (c : ℕ) (s : Text) → contains c s ≡ false → rsplit_once c s ≡ none
unfolding rsplit_once contains
rsplit_once-absent c [] h = refl
rsplit_once-absent c (d ∷ s) h = ground (arith, rsplit_once-absent c s)

pub rsplit_once-last :
    (c : ℕ) (before after : Text)
    → contains c after ≡ false
    → rsplit_once c (before ++ (c ∷ after)) ≡ some (before, after)
unfolding rsplit_once
rsplit_once-last c [] after h = ground (arith, rsplit_once-absent c after)
rsplit_once-last c (d ∷ before) after h = ground (arith, rsplit_once-last c before after)

pub contains-append : (c : ℕ) (s t : Text) → contains c (s ++ t) ≡ (contains c s || contains c t)
unfolding contains
contains-append c [] t = refl
contains-append c (d ∷ s) t = ground (arith, contains-append c s t)

-- A character that is not safe does not occur in a safe text.
pub contains-safe :
    (c : ℕ) (s : Text) → is_safe c ≡ false → all is_safe s ≡ true → contains c s ≡ false
unfolding contains
contains-safe c [] unsafe h = refl
contains-safe c (d ∷ s) unsafe h = ground (arith, contains-safe c s)

abbrev pub visible : ℕ → Bool
visible c = not (is_whitespace c)

pub trim_end-visible : (s : Text) → all visible s ≡ true → trim_end s ≡ s
unfolding trim_end
trim_end-visible [] h = refl
trim_end-visible (c ∷ s) h = ground (arith, trim_end-visible s)

pub trim-visible : (s : Text) → all visible s ≡ true → trim s ≡ s
unfolding trim trim_start trim_end
trim-visible [] h = refl
trim-visible (c ∷ s) h =
    let shown : is_whitespace c ≡ false = ground (arith, h) in
    ap trim_end (if_shown shown) ∙ trim_end-visible (c ∷ s) h
  where
    if_shown : is_whitespace c ≡ false → trim_start (c ∷ s) ≡ c ∷ s
    if_shown shown' = rw shown' refl

pub visible-append :
    (s t : Text) → all visible s ≡ true → all visible t ≡ true → all visible (s ++ t) ≡ true
visible-append [] t h k = k
visible-append (c ∷ s) t h k = ground (arith, visible-append s t)

pub safe-range : (c : ℕ) → is_safe c ≡ true → (33 ≤ c) × (c < 127)
unfolding is_unreserved is_ascii_digit is_ascii_lowercase to_ascii_lowercase
safe-range c h = ground arith

pub range-visible : (c : ℕ) → 33 ≤ c → c < 127 → visible c ≡ true
unfolding is_whitespace
range-visible c low high = ground arith

pub safe-visible : (s : Text) → all is_safe s ≡ true → all visible s ≡ true
safe-visible [] h = refl
safe-visible (c ∷ s) h =
    let (low, high) = safe-range c (ground (arith, h)) in
    let ih = safe-visible s (ground (arith, h)) in ground (arith, range-visible c low high, ih)

pub digits-safe : (s : Text) → all is_ascii_digit s ≡ true → all is_safe s ≡ true
unfolding is_unreserved is_ascii_digit
digits-safe [] h = refl
digits-safe (c ∷ s) h = ground (arith, digits-safe s)

pub unsafe_colon : is_safe b':' ≡ false
unfolding is_unreserved
unsafe_colon = refl

pub unsafe_query : is_safe b'?' ≡ false
unfolding is_unreserved
unsafe_query = refl

pub unsafe_slash : is_safe b'/' ≡ false
unfolding is_unreserved
unsafe_slash = refl

pub unsafe_at : is_safe b'@' ≡ false
unfolding is_unreserved
unsafe_at = refl

pub unsafe_comma : is_safe b',' ≡ false
unfolding is_unreserved
unsafe_comma = refl

pub both_free : (a b : Bool) → a ≡ false → b ≡ false → (a || b) ≡ false
both_free a b h k = ground arith

pub contains-cons :
    (c d : ℕ) (s : Text) → (d == c) ≡ false → contains c s ≡ false → contains c (d ∷ s) ≡ false
unfolding contains
contains-cons c d s h k = both_free _ _ h k

pub strip_bracket :
    (s rest : Text)
    → all is_safe s ≡ true
    → is_empty s ≡ false
    → strip_prefix (b'[' ∷ []) (s ++ rest) ≡ none
unfolding strip_prefix is_unreserved is_ascii_digit is_ascii_lowercase to_ascii_lowercase
strip_bracket [] rest h given = cc (given)
strip_bracket (c ∷ s) rest h given = ground arith

pub percent_encode-given : (s : Text) → is_empty s ≡ false → is_empty (percent_encode s) ≡ false
unfolding percent_encode encode_bytes str_bytes utf8
percent_encode-given [] h = h
percent_encode-given (c ∷ s) h = ground arith

pub digits-given : (s : Text) (port : ℕ) → parse_port s ≡ some port → is_empty s ≡ false
unfolding parse_port parse_u16
digits-given [] port h = cc (h)
digits-given (c ∷ s) port h = refl

pub scheme-visible : all visible (codes "postgresql://") ≡ true
unfolding is_whitespace
scheme-visible = refl

pub after_scheme-prefix : (rest : Text) → after_scheme (codes "postgresql://" ++ rest) ≡ ok rest
unfolding after_scheme strip_prefix_ignore_case to_ascii_lowercase
after_scheme-prefix rest = refl
