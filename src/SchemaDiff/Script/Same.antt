-- ===== src/SchemaDiff/Script/Same.antt =====
-- Comparing a schema with itself.
use draco.Base.{
  Bool-cases, All, ℕ, ◌≡◌, refl, ap, ◌∙◌, inl, inr, Bool, true, false, Option, none, some, List, [],
  ◌∷◌, ◌++◌,
}
use draco.Text.{Text, codes, text_eq, text_eq_refl}
use draco.Text.Assoc.{get}
use draco.Text.Sorted.{BTreeMap}
use draco.SchemaDiff.{
  TableSnapshot, ViewSnapshot, RoutineSnapshot, SequenceSnapshot, SchemaSnapshot, SchemaDiff,
  empty_builder, union_keys,
}
use draco.SchemaDiff.Ident.{quote_ident}
use draco.SchemaDiff.Render.{normalize_body}
use draco.SchemaDiff.Alter.Unchanged.{same_bool_refl, HasDistinctColumns, alter_table-same}
use draco.SchemaDiff.Objects.{
  Entry, qualify, same_sequence, diff_sequence, diff_table, diff_view, diff_routine,
}
use draco.SchemaDiff.Script.{
  requalify_snapshot, diff_names, diff_map, diff_entries, collected, sort_by_phase, summarise,
  diff_schemas,
}

same_sequence_refl : (s : SequenceSnapshot) → same_sequence s s ≡ true
unfolding same_sequence
same_sequence_refl s =
    rw
      (
        text_eq_refl s.data_type,
        text_eq_refl s.start,
        text_eq_refl s.increment,
        text_eq_refl s.min,
        text_eq_refl s.max,
        text_eq_refl s.cache,
      )
      (same_bool_refl s.cycle)

-- What a name contributes when both sides have the same.
diff_sequence-same : (q name : Text) (o : Option SequenceSnapshot) → diff_sequence q name o o ≡ []
unfolding diff_sequence
diff_sequence-same q name none = refl
diff_sequence-same q name (some s) = rw (same_sequence_refl s) refl

diff_view-same : (q name : Text) (o : Option ViewSnapshot) → diff_view q name o o ≡ []
unfolding diff_view
diff_view-same q name none = refl
diff_view-same q name (some v) =
    rw (text_eq_refl (normalize_body v.definition), same_bool_refl v.materialized) refl

diff_routine-same :
    (schema key : Text) (o : Option RoutineSnapshot) → diff_routine schema key o o ≡ []
unfolding diff_routine
diff_routine-same schema key none = refl
diff_routine-same schema key (some r) = rw (text_eq_refl (normalize_body r.definition)) refl

abbrev HasDistinctColumnsIfAny : Option TableSnapshot → Type 0
HasDistinctColumnsIfAny none = Unit
HasDistinctColumnsIfAny (some t) = HasDistinctColumns t

diff_table-same :
    (q name : Text) (o : Option TableSnapshot)
    → HasDistinctColumnsIfAny o
    → diff_table q name o o ≡ []
unfolding diff_table
diff_table-same q name none h = refl
diff_table-same q name (some t) h = rw (alter_table-same empty_builder q t h) refl

abbrev pub AllDistinctColumns : BTreeMap TableSnapshot → Type 0
AllDistinctColumns m = All (λ (e : Text × TableSnapshot). HasDistinctColumns e.1) m

get-HasDistinctColumns :
    (name : Text) (m : BTreeMap TableSnapshot)
    → AllDistinctColumns m
    → HasDistinctColumnsIfAny (get name m)
unfolding get
get-HasDistinctColumns name [] h = tt
get-HasDistinctColumns name ((k, t) ∷ m) h = elim (Bool-cases (text_eq k name)) [
  | inl here ↦ rw here h.0
  | inr later ↦ rw later (get-HasDistinctColumns name m h.1)
]

diff_names-same {ℓ} :
    {V : Type ℓ} (one : Text → Option V → Option V → List Entry) (m : BTreeMap V)
    (names : List Text)
    → ((name : Text) → one name (get name m) (get name m) ≡ [])
    → diff_names one m m names ≡ []
unfolding diff_names
diff_names-same one m [] h = refl
diff_names-same one m (name ∷ names) h = rw (h name) (diff_names-same one m names h)

diff_map-same {ℓ} :
    {V : Type ℓ} (one : Text → Option V → Option V → List Entry) (m : BTreeMap V)
    → ((name : Text) → one name (get name m) (get name m) ≡ [])
    → diff_map one m m ≡ []
unfolding diff_map
diff_map-same one m h = diff_names-same one m (union_keys m m) h

diff_entries-same : (s : SchemaSnapshot) → AllDistinctColumns s.tables → diff_entries s s ≡ []
unfolding diff_entries
diff_entries-same s h =
    let schema = quote_ident s.schema in
    rw
      (
        diff_map-same (λ name. diff_sequence (qualify schema name) name) s.sequences
            (λ name. diff_sequence-same (qualify schema name) name (get name s.sequences)),
        diff_map-same (λ name. diff_table (qualify schema name) name) s.tables
            (λ name.
              diff_table-same (qualify schema name) name (get name s.tables)
                (get-HasDistinctColumns name s.tables h)),
        diff_map-same (λ name. diff_view (qualify schema name) name) s.views
            (λ name. diff_view-same (qualify schema name) name (get name s.views)),
      )
      (diff_map-same (diff_routine schema) s.routines
        (λ name. diff_routine-same schema name (get name s.routines)))

-- The result that reports nothing.
abbrev pub no_difference : Text → SchemaDiff
no_difference schema = record {
  objects = [];
  script =
      codes "-- Draco schema diff: makes "
      ++ (quote_ident schema
          ++ codes
              " match the source schema.\n-- Review before running. A script run in the SQL editor executes as one transaction.\n-- No differences\n");
  destructive = false;
}

summarise-nil : (schema : Text) → summarise schema [] ≡ no_difference schema
unfolding summarise collected sort_by_phase
summarise-nil schema = refl

-- Comparing a snapshot with itself reports no object, is not destructive, and writes a script that
-- says that there is no difference and holds no statement, whatever the snapshot holds, as long
-- as no table has two columns of the same name (PostgreSQL allows none).
pub diff_schemas-same :
    (is_alphanumeric : ℕ → Bool) (s : SchemaSnapshot)
    → AllDistinctColumns s.tables
    → diff_schemas is_alphanumeric s s ≡ no_difference s.schema
unfolding diff_schemas requalify_snapshot
diff_schemas-same is_alphanumeric s h =
    rw (text_eq_refl s.schema)
      (ap (summarise s.schema) (diff_entries-same s h) ∙ summarise-nil s.schema)
