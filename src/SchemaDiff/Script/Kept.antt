-- ===== src/SchemaDiff/Script/Kept.antt =====
-- What a comparison that is not flagged as destructive leaves in place.
use draco.Base.{
  Bool-cases, is_some, any, ℕ, ◌≡◌, refl, sym, ◌∙◌, ◌⊎◌, inl, inr, Bool, true, false, ◌||◌, Option,
  none, some, List, [], ◌∷◌, ◌++◌, arith,
}
use draco.Text.{Text, text_eq, text_eq_iff}
use draco.Text.Assoc.{get}
use draco.Text.Sorted.{BTreeMap, insert_sorted, keys, sorted_set}
use draco.Import.{member}
use draco.SchemaDiff.{TableSnapshot, SequenceSnapshot, SchemaSnapshot, union_keys}
use draco.SchemaDiff.Ident.{quote_ident}
use draco.SchemaDiff.Objects.{Entry, qualify, diff_sequence, diff_table}
use draco.SchemaDiff.Script.{
  map_values, requalify_snapshot, diff_names, diff_map, diff_entries, summarise, diff_schemas,
}

member-insert_sorted :
    (k j : Text) (ks : List Text) → member k (insert_sorted j ks) ≡ (text_eq j k || member k ks)
unfolding member insert_sorted
member-insert_sorted k j [] = refl
member-insert_sorted k j (i ∷ is) =
    ground (arith, member-insert_sorted k j is, text_eq_iff j i, text_eq_iff i k, text_eq_iff j k)

member-sorted_set : (k : Text) (ks : List Text) → member k (sorted_set ks) ≡ member k ks
unfolding sorted_set member
member-sorted_set k [] = refl
member-sorted_set k (j ∷ ks) = cc (member-insert_sorted k j (sorted_set ks), member-sorted_set k ks)

member-append : (k : Text) (xs ys : List Text) → member k (xs ++ ys) ≡ (member k xs || member k ys)
unfolding member
member-append k [] ys = refl
member-append k (x ∷ xs) ys = ground (arith, member-append k xs ys)

member-keys {ℓ} : {V : Type ℓ} (k : Text) (m : BTreeMap V) → member k (keys m) ≡ is_some (get k m)
unfolding member get
member-keys k [] = refl
member-keys k ((j, v) ∷ m) = ground (arith, member-keys k m)

member-union_keys {ℓ} :
    {V : Type ℓ} (k : Text) (left right : BTreeMap V)
    → member k (union_keys left right) ≡ (is_some (get k left) || is_some (get k right))
unfolding union_keys
member-union_keys k left right = cc (
  member-sorted_set k (keys left ++ keys right),
  member-append k (keys left) (keys right),
  member-keys k left,
  member-keys k right,
)

abbrev AreCalm : List Entry → Type 0
AreCalm entries = any (λ e. e.0.destructive) entries ≡ false

AreCalm-append : (xs ys : List Entry) → AreCalm (xs ++ ys) → AreCalm xs × AreCalm ys
AreCalm-append [] ys h = (refl, h)
AreCalm-append (x ∷ xs) ys h =
    let (calm, rest) = AreCalm-append xs ys (ground arith) in (ground arith, rest)

diff_names-AreCalm {ℓ} :
    {V : Type ℓ} (one : Text → Option V → Option V → List Entry) (source target : BTreeMap V)
    (names : List Text) (name : Text)
    → AreCalm (diff_names one source target names)
    → member name names ≡ true
    → AreCalm (one name (get name source) (get name target))
unfolding diff_names member
diff_names-AreCalm one source target [] name calm here = ground arith
diff_names-AreCalm one source target (k ∷ names) name calm here =
    let (first, rest) =
      AreCalm-append (one k (get k source) (get k target)) (diff_names one source target names)
        calm in
    elim (Bool-cases (text_eq k name)) [
      | inl same ↦ rw (← (text_eq_iff k name).0 same) first
      | inr later ↦ diff_names-AreCalm one source target names name rest (ground arith)
    ]

diff_map-AreCalm {ℓ} :
    {V : Type ℓ} (one : Text → Option V → Option V → List Entry) (source target : BTreeMap V)
    (name : Text)
    → AreCalm (diff_map one source target)
    → is_some (get name target) ≡ true
    → AreCalm (one name (get name source) (get name target))
unfolding diff_map
diff_map-AreCalm one source target name calm here =
    diff_names-AreCalm one source target (union_keys source target) name calm
      (ground (arith, member-union_keys name source target))

diff_table-kept :
    (q name : Text) (s t : Option TableSnapshot)
    → AreCalm (diff_table q name s t)
    → is_some t ≡ true
    → is_some s ≡ true
unfolding diff_table
diff_table-kept q name none none calm here = here
diff_table-kept q name none (some t) calm here = cc calm
diff_table-kept q name (some s) t calm here = refl

diff_sequence-kept :
    (q name : Text) (s t : Option SequenceSnapshot)
    → AreCalm (diff_sequence q name s t)
    → is_some t ≡ true
    → is_some s ≡ true
unfolding diff_sequence
diff_sequence-kept q name none none calm here = here
diff_sequence-kept q name none (some t) calm here = cc calm
diff_sequence-kept q name (some s) t calm here = refl

get-map_values {ℓ κ} :
    {V : Type ℓ} {W : Type κ} (f : V → W) (name : Text) (m : BTreeMap V)
    → is_some (get name (map_values f m)) ≡ is_some (get name m)
unfolding get
get-map_values f name [] = refl
get-map_values f name ((k, v) ∷ m) = ground (arith, get-map_values f name m)

-- Rewriting a snapshot changes the name of no object.
requalify_snapshot-names :
    (is_alphanumeric : ℕ → Bool) (s : SchemaSnapshot) (schema name : Text)
    → (is_some (get name (requalify_snapshot is_alphanumeric s schema).tables)
        ≡ is_some (get name s.tables))
      × (is_some (get name (requalify_snapshot is_alphanumeric s schema).sequences)
          ≡ is_some (get name s.sequences))
unfolding requalify_snapshot
requalify_snapshot-names is_alphanumeric s schema name =
    elim (Bool-cases (text_eq s.schema schema)) [
      | inl same ↦ rw same (refl, refl)
      | inr other_schema ↦ rw other_schema (get-map_values _ name s.tables, refl)
    ]

abbrev pub IsKept : Bool → Bool → Type 0
IsKept in_target in_source = (in_target ≡ false) ⊎ (in_source ≡ true)

kept : (b c : Bool) → (b ≡ true → c ≡ true) → IsKept b c
kept true c h = inr (h refl)
kept false c h = inl refl

-- If the comparison of two schemas is not flagged as destructive, every table and every sequence
-- of the target is also one of the source.
pub diff_schemas-IsKept :
    (is_alphanumeric : ℕ → Bool) (s t : SchemaSnapshot) (name : Text)
    → (diff_schemas is_alphanumeric s t).destructive ≡ false
    → IsKept (is_some (get name t.tables)) (is_some (get name s.tables))
      × IsKept (is_some (get name t.sequences)) (is_some (get name s.sequences))
unfolding diff_schemas summarise diff_entries
diff_schemas-IsKept is_alphanumeric s t name calm =
    let from_source = requalify_snapshot is_alphanumeric s t.schema in
    let schema = quote_ident t.schema in
    let (names_tables, names_sequences) =
      requalify_snapshot-names is_alphanumeric s t.schema name in
    let (sequences_calm, rest) =
      AreCalm-append
        (diff_map (λ n. diff_sequence (qualify schema n) n) from_source.sequences t.sequences) _
        calm in
    let (tables_calm, _) =
      AreCalm-append (diff_map (λ n. diff_table (qualify schema n) n) from_source.tables t.tables) _
        rest in
    (
      kept _ _ (λ here.
          sym names_tables
          ∙ diff_table-kept (qualify schema name) name _ _
              (diff_map-AreCalm (λ n. diff_table (qualify schema n) n) from_source.tables t.tables
                name tables_calm here)
              here),
      kept _ _ (λ here.
          sym names_sequences
          ∙ diff_sequence-kept (qualify schema name) name _ _
              (diff_map-AreCalm (λ n. diff_sequence (qualify schema n) n) from_source.sequences
                t.sequences name sequences_calm here)
              here),
    )
