-- ===== src/SchemaDiff/Ident/Requalified.antt =====
-- `requalify` of draco-core/src/schema_diff.rs.
use mathlib.Core.List.{append_assoc}
use draco.Base.{
  ◌==◌, if◌then◌else◌, ==_iff, Bool-cases, Option-cases, is_some_and, length, length-append, ℕ,
  zero, suc, ◌≤◌, ◌<◌, ◌≡◌, refl, sym, ap, ◌∙◌, inl, inr, Bool, true, false, ◌||◌, none, some, [],
  ◌∷◌, ◌++◌, arith,
}
use draco.Text.{Text, strip_prefix}
use draco.SchemaDiff.Ident.{
  quote_ident, find_later, find_text, last_char, rewritten, requalify_from, requalify,
}

strip_prefix-append :
    (prefix s after : Text) → strip_prefix prefix s ≡ some after → s ≡ prefix ++ after
unfolding strip_prefix
strip_prefix-append [] s after h = cc h
strip_prefix-append (c ∷ prefix) [] after h = ground arith
strip_prefix-append (c ∷ prefix) (d ∷ s) after h = elim (Bool-cases (c == d)) [
  | inl same ↦
      let ih = strip_prefix-append prefix s after (ground arith) in cc ((==_iff c d).0 same, ih)
  | inr differs ↦ ground arith
]

find_text-here :
    (needle s : Text) (c : ℕ) (after : Text)
    → strip_prefix needle (c ∷ s) ≡ some after
    → find_text needle (c ∷ s) ≡ some ([], after)
unfolding find_text
find_text-here needle s c after h = rw (h, find_text) refl

find_text-later :
    (needle s : Text) (c : ℕ)
    → strip_prefix needle (c ∷ s) ≡ none
    → find_text needle (c ∷ s) ≡ find_later c (find_text needle s)
unfolding find_text
find_text-later needle s c h = rw (h, find_text) refl

-- What is found stands where it is said to. The text that is looked for is not empty.
find_text-append :
    (n : ℕ) (needle s : Text) (found : Text × Text)
    → find_text (n ∷ needle) s ≡ some found
    → s ≡ found.0 ++ ((n ∷ needle) ++ found.1)
find_text-append n needle [] found h = unfold find_text strip_prefix in ground arith
find_text-append n needle (c ∷ s) found h =
    elim (Option-cases (strip_prefix (n ∷ needle) (c ∷ s))) [
      | inr (after, here) ↦ cc (
        h,
        find_text-here (n ∷ needle) s c after here,
        strip_prefix-append (n ∷ needle) (c ∷ s) after here,
      )
      | inl apart ↦ elim (Option-cases (find_text (n ∷ needle) s)) [
        | inl absent ↦ cc (h, find_text-later (n ∷ needle) s c apart, absent)
        | inr (later, there) ↦ cc (
          h,
          find_text-later (n ∷ needle) s c apart,
          there,
          find_text-append n needle s later there,
        )
      ]
    ]

length-found :
    (n : ℕ) (needle s : Text) (found : Text × Text)
    → find_text (n ∷ needle) s ≡ some found
    → length found.1 < length s
length-found n needle s found h =
    let whole = find_text-append n needle s found h in
    omega (
      arith,
      ap length whole,
      length-append found.0 ((n ∷ needle) ++ found.1),
      length-append (n ∷ needle) found.1,
    )

find_text-nil : (n : ℕ) (needle : Text) → find_text (n ∷ needle) [] ≡ none
unfolding find_text strip_prefix
find_text-nil n needle = refl

module _ (is_alphanumeric : ℕ → Bool) where
  requalify_from-none :
      (fuel : ℕ) (needle replacement output rest : Text)
      → find_text needle rest ≡ none
      → requalify_from is_alphanumeric (suc fuel) needle replacement output rest ≡ output ++ rest
  unfolding requalify_from
  requalify_from-none fuel needle replacement output rest h = rw (h, requalify_from) refl

  requalify_from-some :
      (fuel : ℕ) (needle replacement output rest : Text) (found : Text × Text)
      → find_text needle rest ≡ some found
      → requalify_from is_alphanumeric (suc fuel) needle replacement output rest
        ≡ requalify_from is_alphanumeric fuel needle replacement
            ((output ++ found.0)
              ++ rewritten is_alphanumeric needle replacement (output ++ found.0))
            found.1
  unfolding requalify_from
  requalify_from-some fuel needle replacement output rest found h = rw (h, requalify_from) refl

  rewritten-same : (needle before : Text) → rewritten is_alphanumeric needle needle before ≡ needle
  unfolding rewritten
  rewritten-same needle before =
      if_same
        (is_some_and (last_char before)
          (λ c. is_alphanumeric c || c == b'_' || c == b'$' || c == b'.'))
        needle
    where
      if_same : (test : Bool) (t : Text) → (if test then t else t) ≡ t
      if_same true t = refl
      if_same false t = refl

  requalify_from-same :
      (fuel n : ℕ) (needle output rest : Text)
      → requalify_from is_alphanumeric fuel (n ∷ needle) (n ∷ needle) output rest ≡ output ++ rest
  unfolding requalify_from
  requalify_from-same zero n needle output rest = refl
  requalify_from-same (suc fuel) n needle output rest =
      elim (Option-cases (find_text (n ∷ needle) rest)) [
        | inl absent ↦ requalify_from-none fuel (n ∷ needle) (n ∷ needle) output rest absent
        | inr (found, there) ↦
            let before = output ++ found.0 in
            cc (
              requalify_from-some fuel (n ∷ needle) (n ∷ needle) output rest found there,
              rewritten-same (n ∷ needle) before,
              requalify_from-same fuel n needle (before ++ (n ∷ needle)) found.1,
              find_text-append n needle rest found there,
              append_assoc before (n ∷ needle) found.1,
              append_assoc output found.0 ((n ∷ needle) ++ found.1),
            )
      ]

  requalify_from-nil :
      (fuel n : ℕ) (needle replacement output : Text)
      → requalify_from is_alphanumeric fuel (n ∷ needle) replacement output [] ≡ output ++ []
  unfolding requalify_from
  requalify_from-nil zero n needle replacement output = refl
  requalify_from-nil (suc fuel) n needle replacement output =
      requalify_from-none fuel (n ∷ needle) replacement output [] (find_text-nil n needle)

  requalify_from-fuel :
      (fuel more n : ℕ) (needle replacement output rest : Text)
      → length rest ≤ fuel
      → length rest ≤ more
      → requalify_from is_alphanumeric fuel (n ∷ needle) replacement output rest
        ≡ requalify_from is_alphanumeric more (n ∷ needle) replacement output rest
  requalify_from-fuel fuel more n needle replacement output [] h k =
      requalify_from-nil fuel n needle replacement output
      ∙ sym (requalify_from-nil more n needle replacement output)
  requalify_from-fuel zero more n needle replacement output (c ∷ rest) h k = ground arith
  requalify_from-fuel fuel zero n needle replacement output (c ∷ rest) h k = ground arith
  requalify_from-fuel (suc fuel) (suc more) n needle replacement output (c ∷ rest) h k =
      elim (Option-cases (find_text (n ∷ needle) (c ∷ rest))) [
        | inl absent ↦ cc (
          requalify_from-none fuel (n ∷ needle) replacement output (c ∷ rest) absent,
          requalify_from-none more (n ∷ needle) replacement output (c ∷ rest) absent,
        )
        | inr (found, there) ↦
            let before = output ++ found.0 in
            let shorter = length-found n needle (c ∷ rest) found there in
            requalify_from-some fuel (n ∷ needle) replacement output (c ∷ rest) found there
            ∙ (requalify_from-fuel fuel more n needle replacement
                  (before ++ rewritten is_alphanumeric (n ∷ needle) replacement before) found.1
                  (omega (arith, shorter, h)) (omega (arith, shorter, k))
                ∙ sym (
                    requalify_from-some more (n ∷ needle) replacement output (c ∷ rest) found
                      there))
      ]

dotted : (name : Text) → (n : ℕ) × (needle : Text) × ((name ++ b'.' ∷ []) ≡ n ∷ needle)
dotted [] = (b'.', [], refl)
dotted (c ∷ name) = (c, name ++ b'.' ∷ [], refl)

-- Rewriting the name of a schema to itself changes no text.
pub requalify-same :
    (is_alphanumeric : ℕ → Bool) (text schema : Text)
    → requalify is_alphanumeric text schema schema ≡ text
unfolding requalify
requalify-same is_alphanumeric text schema =
    let (n, needle, same) = dotted (quote_ident schema) in
    rw same (requalify_from-same is_alphanumeric (length text) n needle [] text)

-- The rounds that `requalify` is given are enough: with any larger number of them the result is
-- the same.
pub requalify-fuel :
    (is_alphanumeric : ℕ → Bool) (text source target : Text) (rounds : ℕ)
    → length text ≤ rounds
    → requalify_from is_alphanumeric rounds
        (quote_ident source ++ b'.' ∷ [])
        (quote_ident target ++ b'.' ∷ [])
        []
        text
      ≡ requalify is_alphanumeric text source target
unfolding requalify
requalify-fuel is_alphanumeric text source target rounds h =
    let (n, needle, same) = dotted (quote_ident source) in
    rw same
      (requalify_from-fuel is_alphanumeric rounds (length text) n needle _ [] text h (omega arith))
