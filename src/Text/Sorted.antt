-- ===== src/Text/Sorted.antt =====
-- `BTreeMap<String, V>` as the list of its entries in the order of the keys, and `BTreeSet`.
use draco.Base.{ltb, ◌==◌, if◌then◌else◌, Bool, true, false, ◌&&◌, ◌||◌, List, [], ◌∷◌}
use draco.Text.{Text, text_eq}
use draco.Text.Assoc.{HashMap}

abbrev pub BTreeMap {ℓ} : Type ℓ → Type ℓ
BTreeMap V = HashMap V

-- The order of `str`: UTF-8 keeps the order of the scalar values.
unfoldable pub text_lt : Text → Text → Bool
text_lt [] [] = false
text_lt [] (d ∷ t) = true
text_lt (c ∷ s) [] = false
text_lt (c ∷ s) (d ∷ t) = ltb c d || c == d && text_lt s t

unfoldable pub insert_sorted : Text → List Text → List Text
insert_sorted k [] = k ∷ []
insert_sorted k (j ∷ js) =
    let rest = insert_sorted k js in
    if text_eq k j then j ∷ js else if text_lt k j then k ∷ j ∷ js else j ∷ rest

abbrev pub keys {ℓ} : {V : Type ℓ} → BTreeMap V → List Text
keys [] = []
keys ((k, v) ∷ m) = k ∷ keys m

-- The set of the texts of a list, in order: `collect` into a `BTreeSet`.
unfoldable pub sorted_set : List Text → List Text
unfolding insert_sorted
sorted_set [] = []
sorted_set (k ∷ ks) = insert_sorted k (sorted_set ks)
