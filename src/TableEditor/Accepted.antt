-- ===== src/TableEditor/Accepted.antt =====
-- What the editor's preview promises of the table once its statements were executed.
use draco.Base.{
  Bool-cases, any, All, ◌≡◌, refl, ap, ◌∙◌, inl, inr, Bool, true, false, not, ◌&&◌, ◌||◌, Option,
  none, some, List, [], ◌∷◌, arith,
}
use draco.Text.{Text, text_eq, text_eq_iff}
use draco.TableEditor.Alter.{
  TableDetailColumn, ColumnEdit, edited, edit_column, edit_columns, named_by,
}
use draco.TableEditor.Server.{ColumnState, Columns, Server, run, run-nil, run-append}
use draco.TableEditor.Executed.{state_of, declared}
use draco.TableEditor.Applied.{IsApplied, IsCurrent, edited-IsApplied}

abbrev pub is_about : Text → ColumnEdit → Bool
is_about j e = named_by e.original_name j

abbrev pub is_kept : Text → ColumnEdit → Bool
is_kept j e = text_eq e.name j && not e.removed

-- No later edit is about the column that an edit is about.
abbrev pub ApartFrom : Option Text → List ColumnEdit → Type 0
ApartFrom none edits = Unit
ApartFrom (some o) edits = any (is_about o) edits ≡ false

abbrev pub AreApart : List ColumnEdit → Type 0
AreApart [] = Unit
AreApart (e ∷ edits) = ApartFrom e.original_name edits × AreApart edits

or_false_first : (a b : Bool) → (a || b) ≡ false → a ≡ false
or_false_first a b h = ground arith

or_false_second : (a b : Bool) → (a || b) ≡ false → b ≡ false
or_false_second a b h = ground arith

pub both_false : (a b : Bool) → a ≡ false → b ≡ false → (a || b) ≡ false
both_false a b h k = ground arith

module _ (server : Server) (original : List TableDetailColumn) where
  abbrev pub AreCurrent : List ColumnEdit → Columns → Type 0
  AreCurrent [] f = Unit
  AreCurrent (e ∷ edits) f = IsCurrent server original e.original_name f × AreCurrent edits f

  -- A name that is free is not that of a column with an edit.
  free-not_about :
      (edits : List ColumnEdit) (f : Columns) (name : Text)
      → AreCurrent edits f
      → f name ≡ none
      → any (is_about name) edits ≡ false
  free-not_about [] f name current free = refl
  free-not_about (e ∷ edits) f name (here, later) free =
      free_here e.original_name here (free-not_about edits f name later free)
    where
      free_here :
          (o : Option Text)
          → IsCurrent server original o f
          → any (is_about name) edits ≡ false
          → (named_by o name || any (is_about name) edits) ≡ false
      free_here none h rest = rest
      free_here (some o) (c, found, current) rest =
          ground (arith, current, free, rest, text_eq_iff o name)

  IsCurrent-later :
      (o d : Option Text) (removed : Bool) (e : ColumnEdit) (f f' : Columns)
      → IsApplied o removed e f f'
      → ((k : Text) → d ≡ some k → named_by o k ≡ false)
      → IsCurrent server original d f
      → IsCurrent server original d f'
  IsCurrent-later o none removed e f f' applied apart current = tt
  IsCurrent-later o (some k) removed e f f' applied apart (c, found, current) =
      (c, found, applied.untouched k (state_of c) current (apart k refl))

  apart-first :
      (o d : Option Text) (rest : List ColumnEdit) (first : ColumnEdit)
      → ApartFrom o (first ∷ rest)
      → first.original_name ≡ d
      → (k : Text) → d ≡ some k
      → named_by o k ≡ false
  apart-first none d rest first apart same k at = refl
  apart-first (some o) d rest first apart same k at =
      named_apart first.original_name (same ∙ at) (or_false_first _ _ apart)
    where
      named_apart : (n : Option Text) → n ≡ some k → named_by n o ≡ false → text_eq o k ≡ false
      named_apart none at' h = cc (at')
      named_apart (some m) at' h =
          let m_k : m ≡ k = cc (at') in ground (arith, m_k, h, text_eq_iff m o, text_eq_iff o k)

  apart-rest :
      (o : Option Text) (first : ColumnEdit) (rest : List ColumnEdit)
      → ApartFrom o (first ∷ rest)
      → ApartFrom o rest
  apart-rest none first rest apart = tt
  apart-rest (some o) first rest apart = or_false_second _ _ apart

  -- The columns of the later edits are untouched by the first.
  AreCurrent-later :
      (o : Option Text) (removed : Bool) (e : ColumnEdit) (edits : List ColumnEdit) (f f' : Columns)
      → IsApplied o removed e f f'
      → ApartFrom o edits
      → AreCurrent edits f
      → AreCurrent edits f'
  AreCurrent-later o removed e [] f f' applied apart current = tt
  AreCurrent-later o removed e (d ∷ edits) f f' applied apart (here, later) = (
    IsCurrent-later o d.original_name removed e f f' applied
        (apart-first o d.original_name edits d apart refl) here,
    AreCurrent-later o removed e edits f f' applied (apart-rest o d edits apart) later,
  )

  pub record AreApplied (edits : List ColumnEdit) (f f' : Columns) : Type 0 where
    pub shown : All (λ e. e.removed ≡ false → f' e.name ≡ some (declared e)) edits
    pub untouched :
        (j : Text) (s : ColumnState) → f j ≡ some s → any (is_about j) edits ≡ false → f' j ≡ some s
    pub gone :
        (j : Text)
        → (any (is_about j) edits ≡ false → f j ≡ none)
        → any (is_kept j) edits ≡ false
        → f' j ≡ none

  cons-AreApplied :
      (e : ColumnEdit) (edits : List ColumnEdit) (f f1 f' : Columns)
      → AreCurrent (e ∷ edits) f
      → ApartFrom e.original_name edits
      → IsApplied e.original_name e.removed e f f1
      → AreApplied edits f1 f'
      → AreApplied (e ∷ edits) f f'
  cons-AreApplied e edits f f1 f' (here, later) apart first rest = record {
    shown = (
      λ kept. rest.untouched e.name (declared e) (first.shown kept) (name_apart kept),
      rest.shown,
    );
    untouched = λ j s present away.
        rest.untouched j s (first.untouched j s present (or_false_first _ _ away))
          (or_false_second _ _ away);
    gone = λ j absent away.
        rest.gone j
          (λ later_away.
            first.gone j (λ first_away. absent (both_false _ _ first_away later_away))
              (or_false_first _ _ away))
          (or_false_second _ _ away);
  }
    where
      name_apart : e.removed ≡ false → any (is_about e.name) edits ≡ false
      name_apart kept = elim (Bool-cases (named_by e.original_name e.name)) [
        | inl same ↦ same_apart e.original_name same apart
        | inr moved ↦ free-not_about edits f e.name later (first.fresh kept moved)
      ]
        where
          same_apart :
              (o : Option Text)
              → named_by o e.name ≡ true
              → ApartFrom o edits
              → any (is_about e.name) edits ≡ false
          same_apart none same away = cc (same)
          same_apart (some o) same away =
              let o_name = (text_eq_iff o e.name).0 same in rw (← o_name) away

  pub edits-AreApplied :
      (edits : List ColumnEdit) (t t' : server.Table)
      → run server (edit_columns original edits) t ≡ some t'
      → AreCurrent edits (server.columns t)
      → AreApart edits
      → AreApplied edits (server.columns t) (server.columns t')
  unfolding edit_columns edit_column
  edits-AreApplied [] t t' h current apart =
      let same = ap server.columns (run-nil server t t' h) in
      record {
        shown = tt;
        untouched = λ j s present away. rw (← same) present;
        gone = λ j absent away. rw (← same) (absent refl);
      }
  edits-AreApplied (e ∷ edits) t t' h (here, later) (apart, apart_later) =
      let (t1, done, rest) =
        run-append server (edited original e.original_name e) (edit_columns original edits) t t'
          h in
      let first = edited-IsApplied server original e.original_name e t t1 done here in
      let f = server.columns t in
      let f1 = server.columns t1 in
      cons-AreApplied e edits f f1 (server.columns t') (here, later) apart first
        (edits-AreApplied edits t1 t' rest
          (AreCurrent-later e.original_name e.removed e edits f f1 first apart later) apart_later)
