-- ===== src/Text/Assoc.antt =====
-- `HashMap<String, V>` as an association list, behind its laws on `get`.
use draco.Base.{Bool, List, [], ◌∷◌, Option, none, some, ◌≡◌, arith, if◌then◌else◌}
use draco.Text.{Text, text_eq, text_eq_iff}

abbrev pub HashMap {ℓ} : Type ℓ → Type ℓ
HashMap V = List (Text × V)

module _ {ℓ} {V : Type ℓ} where
  unfoldable pub get : Text → HashMap V → Option V
  get k [] = none
  get k ((j, v) ∷ m) = let rest = get k m in if text_eq j k then some v else rest

  unfoldable pub remove : Text → HashMap V → HashMap V
  remove k [] = []
  remove k ((j, v) ∷ m) = let rest = remove k m in if text_eq j k then rest else (j, v) ∷ rest

  unfoldable pub insert : Text → V → HashMap V → HashMap V
  unfolding remove
  insert k v m = (k, v) ∷ remove k m

  -- `retain` by a test of the key.
  unfoldable pub retain_keys : (Text → Bool) → HashMap V → HashMap V
  retain_keys p [] = []
  retain_keys p ((j, v) ∷ m) = let rest = retain_keys p m in if p j then (j, v) ∷ rest else rest

  pub get-remove :
      (k j : Text) (m : HashMap V) → get j (remove k m) ≡ (if text_eq k j then none else get j m)
  unfolding get remove
  get-remove k j [] = ground arith
  get-remove k j ((i, w) ∷ m) =
      ground (arith, text_eq_iff i k, text_eq_iff i j, text_eq_iff k j, get-remove k j m)

  pub get-insert :
      (k j : Text) (v : V) (m : HashMap V)
      → get j (insert k v m) ≡ (if text_eq k j then some v else get j m)
  unfolding get insert
  get-insert k j v m = ground (arith, get-remove k j m)

  pub get-retain_keys :
      (p : Text → Bool) (k : Text) (m : HashMap V)
      → get k (retain_keys p m) ≡ (if p k then get k m else none)
  unfolding get retain_keys
  get-retain_keys p k [] = ground arith
  get-retain_keys p k ((i, w) ∷ m) = ground (arith, text_eq_iff i k, get-retain_keys p k m)
