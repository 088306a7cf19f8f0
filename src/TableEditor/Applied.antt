-- ===== src/TableEditor/Applied.antt =====
-- Each edit of the form, once its statements were executed, has done to the columns what it asks
-- for, and nothing to the others.
use mathlib.Core.Path.{subst}
use draco.Base.{
  if◌then◌else◌, Bool-cases, is_empty, find, ◌≡◌, refl, sym, ap, ◌∙◌, inl, inr, Bool, true, false,
  not, ◌&&◌, Option, none, some, List, [], ◌∷◌, arith,
}
use draco.Text.{Text, text_eq, text_eq_iff, trim}
use draco.TableEditor.{given}
use draco.TableEditor.Alter.{
  TableDetailColumn, ColumnEdit, AlterAction, add_column, drop_column, trimmed_or_empty, changes,
  has_column_name, edit_existing, edited, named_by,
}
use draco.TableEditor.Server.{ColumnState, Columns, Server, run, run-nil, run-when, sent_free}
use draco.TableEditor.Executed.{put, state_of, declared, put_self, changes_effect, changes_free}

-- An edit that was carried out, by the column that it edits and whether it removes it.
pub record IsApplied (o : Option Text) (removed : Bool) (e : ColumnEdit) (f f' : Columns)
    : Type 0 where
  pub shown : removed ≡ false → f' e.name ≡ some (declared e)
  pub untouched : (j : Text) (s : ColumnState) → f j ≡ some s → named_by o j ≡ false → f' j ≡ some s
  pub gone :
      (j : Text)
      → (named_by o j ≡ false → f j ≡ none)
      → (text_eq e.name j && not removed) ≡ false
      → f' j ≡ none
  pub fresh : removed ≡ false → named_by o e.name ≡ false → f e.name ≡ none

removed-IsApplied :
    (o : Text) (e : ColumnEdit) (f : Columns) → IsApplied (some o) true e f (put o none f)
removed-IsApplied o e f = record {
  shown = λ h. cc (h);
  untouched = λ j s present apart. ground (arith, present, apart);
  gone = λ j absent apart. gone_part j absent;
  fresh = λ h. cc (h);
}
  where
    gone_part : (j : Text) → (named_by (some o) j ≡ false → f j ≡ none) → put o none f j ≡ none
    gone_part j absent = elim (Bool-cases (text_eq o j)) [
      | inl here ↦ rw here refl
      | inr apart ↦ rw apart (absent apart)
    ]

kept-IsApplied :
    (o : Text) (e : ColumnEdit) (f : Columns)
    → (text_eq e.name o ≡ false → f e.name ≡ none)
    → IsApplied (some o) false e f (put e.name (some (declared e)) (put o none f))
kept-IsApplied o e f free = record {
  shown = λ h. put_self e.name (some (declared e)) (put o none f);
  untouched = untouched_part;
  gone = gone_part;
  fresh = λ h apart. free (ground (arith, apart, text_eq_iff e.name o, text_eq_iff o e.name));
}
  where
    untouched_part :
        (j : Text) (s : ColumnState)
        → f j ≡ some s
        → named_by (some o) j ≡ false
        → put e.name (some (declared e)) (put o none f) j ≡ some s
    untouched_part j s present apart = elim (Bool-cases (text_eq e.name j)) [
      | inl here ↦ elim (Bool-cases (text_eq e.name o)) [
        | inl same ↦
            ground (
              arith,
              apart,
              here,
              same,
              text_eq_iff e.name j,
              text_eq_iff e.name o,
              text_eq_iff o j,
            )
        | inr moved ↦
            let none_here = free moved in
            ground (arith, present, here, none_here, text_eq_iff e.name j)
      ]
      | inr away ↦ rw away (rw apart present)
    ]

    gone_part :
        (j : Text)
        → (named_by (some o) j ≡ false → f j ≡ none)
        → (text_eq e.name j && not false) ≡ false
        → put e.name (some (declared e)) (put o none f) j ≡ none
    gone_part j absent apart = elim (Bool-cases (text_eq o j)) [
      | inl here ↦ ground (arith, here, apart)
      | inr away ↦ let nothing = absent away in ground (arith, away, apart, nothing)
    ]

added-IsApplied :
    (e : ColumnEdit) (f : Columns)
    → f e.name ≡ none
    → IsApplied none false e f (put e.name (some (declared e)) f)
added-IsApplied e f free = record {
  shown = λ h. put_self e.name (some (declared e)) f;
  untouched = λ j s present apart. ground (arith, present, free, text_eq_iff e.name j);
  gone = λ j absent apart. let nothing = absent refl in ground (arith, apart, nothing);
  fresh = λ h apart. free;
}

ignored-IsApplied : (e : ColumnEdit) (f : Columns) → IsApplied none true e f f
ignored-IsApplied e f = record {
  shown = λ h. cc (h);
  untouched = λ j s present apart. present;
  gone = λ j absent apart. absent refl;
  fresh = λ h. cc (h);
}

is_empty-nil : (t : Text) → is_empty t ≡ true → [] ≡ t
is_empty-nil [] h = refl
is_empty-nil (c ∷ t) h = cc (h)

-- A blank default is none, also once it is trimmed.
given_trimmed : (d : Option Text) → trimmed_or_empty (given d) ≡ trimmed_or_empty d
unfolding trim
given_trimmed none = refl
given_trimmed (some value) = elim (Bool-cases (is_empty (trim value))) [
  | inl blank ↦ rw blank (is_empty-nil (trim value) blank)
  | inr full ↦ rw full refl
]

abbrev added_action : ColumnEdit → AlterAction
added_action e = add_column e.name e.data_type e.nullable (given e.default)

module _ (server : Server) (original : List TableDetailColumn) where
  -- The column that an edit names is there, and stands as it did when the form was opened.
  abbrev pub IsCurrent : Option Text → Columns → Type 0
  IsCurrent none f = Unit
  IsCurrent (some o) f =
      (c : TableDetailColumn) × (find (has_column_name o) original ≡ some c)
      × (f o ≡ some (state_of c))

  adding-IsApplied :
      (removed : Bool) (e : ColumnEdit) (t t' : server.Table)
      → run server (if removed then [] else added_action e ∷ []) t ≡ some t'
      → IsApplied none removed e (server.columns t) (server.columns t')
  adding-IsApplied true e t t' h =
      rw (run-nil server t t' h) (ignored-IsApplied e (server.columns t'))
  adding-IsApplied false e t t' h =
      let same =
        run-when server true (added_action e) t t' h
        ∙ ap
            (λ d.
              put e.name
                (some (record { data_type = e.data_type; nullable = e.nullable; default = d }))
                (server.columns t))
            (given_trimmed e.default) in
      let free = sent_free server true (added_action e) e.name t t' refl refl h in
      subst (IsApplied none false e (server.columns t)) (sym same)
        (added-IsApplied e (server.columns t) free)

  existing-IsApplied :
      (o : Text) (removed : Bool) (e : ColumnEdit) (c : TableDetailColumn) (t t' : server.Table)
      → run server (if removed then drop_column o ∷ [] else changes o c e) t ≡ some t'
      → server.columns t o ≡ some (state_of c)
      → IsApplied (some o) removed e (server.columns t) (server.columns t')
  existing-IsApplied o true e c t t' h current =
      subst (IsApplied (some o) true e (server.columns t))
        (sym (run-when server true (drop_column o) t t' h))
        (removed-IsApplied o e (server.columns t))
  existing-IsApplied o false e c t t' h current =
      subst (IsApplied (some o) false e (server.columns t))
        (sym (changes_effect server original o c e t t' h current))
        (kept-IsApplied o e (server.columns t) (changes_free server original o c e t t' h))

  edit_existing_found :
      (o : Text) (e : ColumnEdit) (c : TableDetailColumn)
      → find (has_column_name o) original ≡ some c
      → edit_existing original o e ≡ (if e.removed then drop_column o ∷ [] else changes o c e)
  unfolding edit_existing
  edit_existing_found o e c found = rw (found, edit_existing) refl

  pub edited-IsApplied :
      (o : Option Text) (e : ColumnEdit) (t t' : server.Table)
      → run server (edited original o e) t ≡ some t'
      → IsCurrent o (server.columns t)
      → IsApplied o e.removed e (server.columns t) (server.columns t')
  unfolding edit_existing
  edited-IsApplied none e t t' h current = adding-IsApplied e.removed e t t' h
  edited-IsApplied (some o) e t t' h (c, found, current) =
      existing-IsApplied o e.removed e c t t' (rw (← edit_existing_found o e c found) h) current
