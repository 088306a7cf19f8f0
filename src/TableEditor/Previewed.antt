-- ===== src/TableEditor/Previewed.antt =====
-- The preview of a form, against the table that its statements make.
use draco.Base.{
  Bool-cases, any, find, ok, >>=-eq-ok, ◌≡◌, refl, ap, ◌∙◌, inl, inr, Bool, true, false, not, ◌||◌,
  Option, none, some, List, [], ◌∷◌, arith,
}
use draco.Text.{Text, text_eq, text_eq_iff}
use draco.Import.{member}
use draco.TableEditor.Alter.{
  TableDetailColumn, ColumnEdit, has_column_name, named_by, column_names, supply_original,
  resulting_name, check_edits,
}
use draco.TableEditor.Server.{ColumnState, Columns, Server}
use draco.TableEditor.Executed.{state_of}
use draco.TableEditor.Applied.{IsCurrent}
use draco.TableEditor.Accepted.{is_about, ApartFrom, AreApart, both_false, AreCurrent}

-- What the check of an edit's original column has found.
record IsSupplied (originals supplied supplied' : List Text) (o : Option Text) : Type 0 where
  known : (k : Text) → o ≡ some k → member k originals ≡ true
  new_one : (k : Text) → o ≡ some k → member k supplied ≡ false
  grown : (k : Text) → member k supplied' ≡ (named_by o k || member k supplied)

member-cons :
    (n : Text) (ks : List Text) (k : Text) → member k (n ∷ ks) ≡ (text_eq n k || member k ks)
unfolding member
member-cons n ks k = refl

supply_bad :
    (originals supplied supplied' : List Text) (n : Text)
    → (not (member n originals) || member n supplied) ≡ true
    → ¬ (supply_original originals supplied (some n) ≡ ok supplied')
unfolding supply_original
supply_bad originals supplied supplied' n bad h = ground (arith, bad, h)

supply_good :
    (originals supplied supplied' : List Text) (n : Text)
    → (not (member n originals) || member n supplied) ≡ false
    → supply_original originals supplied (some n) ≡ ok supplied'
    → n ∷ supplied ≡ supplied'
unfolding supply_original
supply_good originals supplied supplied' n good h = ground (arith, good, h)

supply_original-ok :
    (originals supplied supplied' : List Text) (o : Option Text)
    → supply_original originals supplied o ≡ ok supplied'
    → IsSupplied originals supplied supplied' o
unfolding supply_original
supply_original-ok originals supplied supplied' none h =
    let same : supplied ≡ supplied' = cc (h) in
    record { known = λ k at. cc (at); new_one = λ k at. cc (at); grown = λ k. rw same refl }
supply_original-ok originals supplied supplied' (some n) h =
    elim (Bool-cases (not (member n originals) || member n supplied)) [
      | inl bad ↦ absurd (supply_bad originals supplied supplied' n bad h)
      | inr good ↦
          let grows : n ∷ supplied ≡ supplied' =
            supply_good originals supplied supplied' n good h in
          record {
            known = λ k at. known_part k (cc (at)) (ground (arith, good));
            new_one = λ k at. new_part k (cc (at)) (ground (arith, good));
            grown = λ k. rw (← grows) (member-cons n supplied k);
          }
    ]
  where
    known_part : (k : Text) → n ≡ k → member n originals ≡ true → member k originals ≡ true
    known_part k same h' = rw (← same) h'

    new_part : (k : Text) → n ≡ k → member n supplied ≡ false → member k supplied ≡ false
    new_part k same h' = rw (← same) h'

-- One round of the loop over the edits.
check_edits-step :
    (originals supplied resulting sup : List Text) (e : ColumnEdit) (edits : List ColumnEdit)
    → check_edits originals supplied resulting (e ∷ edits) ≡ ok sup
    → (supplied' : List Text) × (resulting' : List Text) × (supply_original originals supplied
          e.original_name
        ≡ ok supplied')
      × (check_edits originals supplied' resulting' edits ≡ ok sup)
unfolding check_edits
check_edits-step originals supplied resulting sup e edits h =
    let (supplied', given_one, rest) =
      >>=-eq-ok (supply_original originals supplied e.original_name) _ h in
    let (resulting', _, last) = >>=-eq-ok (resulting_name resulting e) _ rest in
    (supplied', resulting', given_one, last)

not_named : (o : Option Text) (k : Text) → ¬ (o ≡ some k) → named_by o k ≡ false
not_named none k apart = refl
not_named (some n) k apart = elim (Bool-cases (text_eq n k)) [
  | inl same ↦ absurd (apart (ap some ((text_eq_iff n k).0 same)))
  | inr away ↦ away
]

named_self : (o : Option Text) (k : Text) (rest : Bool) → o ≡ some k → (named_by o k || rest) ≡ true
named_self none k rest at = cc (at)
named_self (some n) k rest at = let same : n ≡ k = cc (at) in ground (arith, same, text_eq_iff n k)

supplied_once :
    (originals supplied resulting sup : List Text) (edits : List ColumnEdit) (k : Text)
    → check_edits originals supplied resulting edits ≡ ok sup
    → member k supplied ≡ true
    → any (is_about k) edits ≡ false
supplied_once originals supplied resulting sup [] k h there = refl
supplied_once originals supplied resulting sup (e ∷ edits) k h there =
    let (supplied', resulting', first, rest) =
      check_edits-step originals supplied resulting sup e edits h in
    let found = supply_original-ok originals supplied supplied' e.original_name first in
    let later =
      supplied_once originals supplied' resulting' sup edits k rest
        (found.grown k ∙ ground (arith, there)) in
    both_false _ _ (not_named e.original_name k (λ at. clash (found.new_one k at) there)) later
  where
    clash : member k supplied ≡ false → member k supplied ≡ true → ⊥
    clash a b = cc (a, b)

pub check_edits-AreApart :
    (originals supplied resulting sup : List Text) (edits : List ColumnEdit)
    → check_edits originals supplied resulting edits ≡ ok sup
    → AreApart edits
check_edits-AreApart originals supplied resulting sup [] h = tt
check_edits-AreApart originals supplied resulting sup (e ∷ edits) h =
    let (supplied', resulting', first, rest) =
      check_edits-step originals supplied resulting sup e edits h in
    let found = supply_original-ok originals supplied supplied' e.original_name first in
    (
      apart_here e.original_name (λ k at.
          supplied_once originals supplied' resulting' sup edits k rest
            (found.grown k ∙ named_self e.original_name k (member k supplied) at)),
      check_edits-AreApart originals supplied' resulting' sup edits rest,
    )
  where
    apart_here :
        (o : Option Text)
        → ((k : Text) → o ≡ some k → any (is_about k) edits ≡ false)
        → ApartFrom o edits
    apart_here none h' = tt
    apart_here (some o) h' = h' o refl

pub check_edits-covers :
    (originals supplied resulting sup : List Text) (edits : List ColumnEdit) (k : Text)
    → check_edits originals supplied resulting edits ≡ ok sup
    → member k sup ≡ true
    → (member k supplied || any (is_about k) edits) ≡ true
unfolding check_edits
check_edits-covers originals supplied resulting sup [] k h there =
    let same : supplied ≡ sup = cc (h) in ground (arith, ap (member k) same, there)
check_edits-covers originals supplied resulting sup (e ∷ edits) k h there =
    let (supplied', resulting', first, rest) =
      check_edits-step originals supplied resulting sup e edits h in
    let found = supply_original-ok originals supplied supplied' e.original_name first in
    ground (
      arith,
      check_edits-covers originals supplied' resulting' sup edits k rest there,
      found.grown k,
    )

-- The columns as the form was opened.
abbrev pub state_found : Option TableDetailColumn → Option ColumnState
state_found none = none
state_found (some c) = some (state_of c)

abbrev pub opened : List TableDetailColumn → Columns
opened original j = state_found (find (has_column_name j) original)

member-find :
    (k : Text) (original : List TableDetailColumn)
    → member k (column_names original) ≡ true
    → (c : TableDetailColumn) × (find (has_column_name k) original ≡ some c)
unfolding member
member-find k [] h = cc (h)
member-find k (c ∷ original) h = elim (Bool-cases (text_eq c.name k)) [
  | inl here ↦ (c, rw here refl)
  | inr away ↦
      let (d, found) = member-find k original (ground (arith, away, h)) in (d, rw away found)
]

pub not_member-find :
    (k : Text) (original : List TableDetailColumn)
    → member k (column_names original) ≡ false
    → find (has_column_name k) original ≡ none
unfolding member
not_member-find k [] h = refl
not_member-find k (c ∷ original) h = ground (arith, not_member-find k original)

module _ (server : Server) (original : List TableDetailColumn) where
  pub check_edits-AreCurrent :
      (supplied resulting sup : List Text) (edits : List ColumnEdit) (f : Columns)
      → check_edits (column_names original) supplied resulting edits ≡ ok sup
      → ((j : Text) → f j ≡ opened original j)
      → AreCurrent server original edits f
  check_edits-AreCurrent supplied resulting sup [] f h same = tt
  check_edits-AreCurrent supplied resulting sup (e ∷ edits) f h same =
      let (supplied', resulting', first, rest) =
        check_edits-step (column_names original) supplied resulting sup e edits h in
      let found =
        supply_original-ok (column_names original) supplied supplied' e.original_name first in
      (
        current_here e.original_name found.known,
        check_edits-AreCurrent supplied' resulting' sup edits f rest same,
      )
    where
      current_here :
          (o : Option Text)
          → ((k : Text) → o ≡ some k → member k (column_names original) ≡ true)
          → IsCurrent server original o f
      current_here none known = tt
      current_here (some k) known =
          let (c, found) = member-find k original (known k refl) in
          (c, found, same k ∙ ap state_found found)
