-- ===== src/SchemaDiff/Script/Ordered.antt =====
-- The order of the statements that `diff_schemas` writes.
use draco.Base.{◌==◌, retain, All, ℕ, ◌≤◌, ◌<◌, ◌≡◌, ◌⊎◌, List, [], ◌∷◌, ◌++◌}
use draco.Text.{Text}
use draco.SchemaDiff.{
  Phase, drop_triggers, drop_foreign_keys, drop_views, drop_indexes, sequences_phase, tables_phase,
  routines_phase, views_phase, indexes_phase, foreign_keys, triggers_phase, drop_routines,
  drop_tables, drop_sequences, rank,
}

abbrev IsBefore : Phase × Text → Phase × Text → Type 0
IsBefore s t = rank s.0 ≤ rank t.0

-- The statements of one phase.
abbrev pub of_phase : Phase → List (Phase × Text) → List (Phase × Text)
of_phase phase ss = retain (λ s. rank s.0 == rank phase) ss

-- The phases in the order in which the script runs them.
abbrev pub phases : List Phase
phases =
    drop_triggers ∷ drop_foreign_keys ∷ drop_views ∷ drop_indexes ∷ sequences_phase ∷ tables_phase
    ∷ routines_phase ∷ views_phase ∷ indexes_phase ∷ foreign_keys ∷ triggers_phase ∷ drop_routines
    ∷ drop_tables ∷ drop_sequences ∷ []

-- The statements, phase by phase.
unfoldable pub by_phases : List Phase → List (Phase × Text) → List (Phase × Text)
by_phases [] ss = []
by_phases (p ∷ ps) ss = of_phase p ss ++ by_phases ps ss

abbrev Increasing : List Phase → Type 0
Increasing [] = Unit
Increasing (p ∷ ps) = All (λ q. rank p < rank q) ps × Increasing ps

-- The phase of a statement is one of the phases.
abbrev Ranks : ℕ → List Phase → Type 0
Ranks n [] = ⊥
Ranks n (p ∷ ps) = (n ≡ rank p) ⊎ ((rank p < n) × Ranks n ps)
