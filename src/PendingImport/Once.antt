-- ===== src/PendingImport/Once.antt =====
-- What is imported cannot be imported again from the same preview.
use mathlib.Core.Path.{subst}
use draco.Base.{
  ltb, Bool-cases, get_elem?, is_empty, All, Result, err, ok, ◌>>=◌, >>=-eq-ok, ok_or,
  reject_if-eq-ok, ℕ, zero, suc, ◌-◌, ◌≡◌, refl, sym, ap, ◌∙◌, inl, inr, Bool, true, false, Option,
  none, some, List, [], ◌∷◌,
}
use draco.Text.{Text}
use draco.Error.{ApplicationError}
use draco.Connection.{ConnectionInput}
use draco.Import.{member}
use draco.ConnectionImport.{ImportedConnection}
use draco.PendingImport.{
  ConnectionImportStatus, saved, invalid, test_failed, save_failed, ConnectionImportResultView,
  Candidate, PendingImport, pending_import_ttl, import_expired, import_input, parse_usize, Selected,
  slot_of, select_key, select_keys, emptied, tested, answered, outcome, import_one, import_all,
  import_selected, import_connections,
}

-- A slot from which nothing can be selected.
abbrev pub IsClosed : List (Option Candidate) → ℕ → Type 0
IsClosed slots index = slot_of (get_elem? slots index) ≡ err import_expired

emptied-IsClosed :
    (index : ℕ) (slots : List (Option Candidate)) → IsClosed (emptied index slots) index
unfolding emptied
emptied-IsClosed index [] = refl
emptied-IsClosed zero (slot ∷ slots) = refl
emptied-IsClosed (suc index) (slot ∷ slots) = emptied-IsClosed index slots

emptied-keeps :
    (index j : ℕ) (slots : List (Option Candidate))
    → IsClosed slots j
    → IsClosed (emptied index slots) j
unfolding emptied
emptied-keeps index j [] h = h
emptied-keeps zero zero (slot ∷ slots) h = refl
emptied-keeps zero (suc j) (slot ∷ slots) h = h
emptied-keeps (suc index) zero (slot ∷ slots) h = h
emptied-keeps (suc index) (suc j) (slot ∷ slots) h = emptied-keeps index j slots h

-- The keys of a selection name its indices.
abbrev AreParsed : List Selected → Type 0
AreParsed selected = All (λ (x : Selected). parse_usize x.0 ≡ some x.1) selected

-- A key that is selected names an index.
ok_or-some : (o : Option ℕ) {n : ℕ} → ok_or o import_expired ≡ ok n → o ≡ some n
ok_or-some none h = cc (h)
ok_or-some (some m) h = cc (h)

select_key-parsed :
    (slots : List (Option Candidate)) (key : Text) {found : ℕ × ImportedConnection}
    → select_key slots key ≡ ok found
    → parse_usize key ≡ some found.0
unfolding select_key
select_key-parsed slots key {found} h =
    let (index, parsed, rest) = >>=-eq-ok (ok_or (parse_usize key) import_expired) _ h in
    let (connection, _, last) = >>=-eq-ok (slot_of (get_elem? slots index)) _ rest in
    let same : index ≡ found.0 = same_index index connection found last in
    ok_or-some (parse_usize key) parsed ∙ ap some same
  where
    same_index :
        (i : ℕ) (c : ImportedConnection) (f : ℕ × ImportedConnection)
        → ◌≡◌ {A = Result ApplicationError (ℕ × ImportedConnection)} (ok (i, c)) (ok f)
        → i ≡ f.0
    same_index i c f e = cc (e)

cons-AreParsed :
    (first : Selected) (others selected : List Selected)
    → ◌≡◌ {A = Result ApplicationError (List Selected)} (ok (first ∷ others)) (ok selected)
    → parse_usize first.0 ≡ some first.1
    → AreParsed others
    → AreParsed selected
cons-AreParsed first others selected h parsed rest =
    let same : first ∷ others ≡ selected = cc (h) in rw (← same) (parsed, rest)

select_keys-AreParsed :
    (slots : List (Option Candidate)) (seen keys : List Text) {selected : List Selected}
    → select_keys slots seen keys ≡ ok selected
    → AreParsed selected
unfolding select_keys
select_keys-AreParsed slots seen [] {selected} h =
    let none_left : [] ≡ selected = cc (h) in rw (← none_left) tt
select_keys-AreParsed slots seen (key ∷ keys) {selected} h = elim (Bool-cases (member key seen)) [
  | inl old ↦ select_keys-AreParsed slots seen keys (sym (passed_over old) ∙ h)
  | inr new ↦
      let taken = sym (taken_up new) ∙ h in
      let (found, first, rest) = >>=-eq-ok (select_key slots key) _ taken in
      let (others, later, last) = >>=-eq-ok (select_keys slots (key ∷ seen) keys) _ rest in
      let parsed = select_key-parsed slots key first in
      let ih = select_keys-AreParsed slots (key ∷ seen) keys later in
      cons-AreParsed (key, found.0, found.1) others selected last parsed ih
]
  where
    passed_over :
        member key seen ≡ true → select_keys slots seen (key ∷ keys) ≡ select_keys slots seen keys
    passed_over old = rw old refl

    taken_up :
        member key seen ≡ false
        → select_keys slots seen (key ∷ keys) ≡ (do
          (index, connection) ← select_key slots key
          rest ← select_keys slots (key ∷ seen) keys
          ok ((key, index, connection) ∷ rest))
    taken_up new = rw new refl

module _ (test_connection : ConnectionInput → Text → Bool) {S : Type 0}
    (save : ConnectionInput → Option Text → S → S × Option Text) where
  -- What one candidate's import does to the slots.
  record IsSettled (selected : Selected) (slots : List (Option Candidate))
      (view : ConnectionImportResultView) (slots' : List (Option Candidate)) : Type 0 where
    named : view.key ≡ selected.0
    closed : view.status ≡ saved → IsClosed slots' selected.1
    kept : (j : ℕ) → IsClosed slots j → IsClosed slots' j

  answered-IsSettled :
      (selected : Selected) (slots : List (Option Candidate)) (answer : S × Option Text)
      → IsSettled selected slots
          (answered test_connection save selected slots answer).0
          (answered test_connection save selected slots answer).1
  answered-IsSettled (key, index, connection) slots (s, some id) = record {
    named = refl;
    closed = λ h. emptied-IsClosed index slots;
    kept = λ j h. emptied-keeps index j slots h;
  }
  answered-IsSettled (key, index, connection) slots (s, none) = record {
    named = refl;
    closed = λ h. cc (h);
    kept = λ j h. h;
  }

  outcome-IsSettled :
      (selected : Selected) (status : ConnectionImportStatus) (slots : List (Option Candidate))
      (s : S)
      → IsSettled selected slots
          (outcome test_connection save selected status slots s).0
          (outcome test_connection save selected status slots s).1
  outcome-IsSettled selected saved slots s =
      answered-IsSettled selected slots (save (import_input selected.2) selected.2.password s)
  outcome-IsSettled selected invalid slots s = record {
    named = refl;
    closed = λ h. cc (h);
    kept = λ j h. h;
  }
  outcome-IsSettled selected test_failed slots s = record {
    named = refl;
    closed = λ h. cc (h);
    kept = λ j h. h;
  }
  outcome-IsSettled selected save_failed slots s = record {
    named = refl;
    closed = λ h. cc (h);
    kept = λ j h. h;
  }

  -- The results of an import, against the slots that it leaves.
  abbrev AreClosed : List ConnectionImportResultView → List (Option Candidate) → Type 0
  AreClosed views slots =
      All (λ v. v.status ≡ saved → (i : ℕ) → parse_usize v.key ≡ some i → IsClosed slots i) views

  import_all-keeps :
      (selected : List Selected) (slots : List (Option Candidate)) (s : S) (j : ℕ)
      → IsClosed slots j
      → IsClosed (import_all test_connection save selected slots s).1 j
  unfolding import_all import_one
  import_all-keeps [] slots s j h = h
  import_all-keeps (x ∷ rest) slots s j h =
      let one = outcome-IsSettled x (tested test_connection x.2) slots s in
      let after = outcome test_connection save x (tested test_connection x.2) slots s in
      import_all-keeps rest after.1 after.2 j (one.kept j h)

  import_all-AreClosed :
      (selected : List Selected) (slots : List (Option Candidate)) (s : S)
      → AreParsed selected
      → AreClosed
          (import_all test_connection save selected slots s).0
          (import_all test_connection save selected slots s).1
  unfolding import_all import_one
  import_all-AreClosed [] slots s parsed = tt
  import_all-AreClosed (x ∷ rest) slots s (here, later) =
      let one = outcome-IsSettled x (tested test_connection x.2) slots s in
      let after = outcome test_connection save x (tested test_connection x.2) slots s in
      (
        λ done i at. import_all-keeps rest after.1 after.2 i (
            same_index i x.1 after.1 (index_same i x.1 (sym at ∙ ap parse_usize one.named ∙ here))
              (one.closed done)),
        import_all-AreClosed rest after.1 after.2 later,
      )
    where
      index_same : (i k : ℕ) → some i ≡ some k → i ≡ k
      index_same i k e = cc (e)

      same_index :
          (i k : ℕ) (slots' : List (Option Candidate))
          → i ≡ k
          → IsClosed slots' k
          → IsClosed slots' i
      same_index i k slots' e closed = rw e closed

  -- An import that names a closed slot is refused, whatever the time.
  import-IsClosed :
      (pending : PendingImport) (key : Text) (i : ℕ) (now : ℕ) (more : List Text) (s : S)
      → parse_usize key ≡ some i
      → IsClosed pending.candidates i
      → import_connections test_connection save now (some pending) (key ∷ more) s
        ≡ err import_expired
  unfolding import_connections import_selected select_keys select_key member
  import-IsClosed pending key i now more s at closed =
      elim (Bool-cases (ltb pending_import_ttl (now - pending.created))) [
        | inl late ↦ rw late refl
        | inr early ↦ rw early (rw at (rw closed refl))
      ]

  answer-AreClosed :
      (pending : PendingImport)
      (reached : List ConnectionImportResultView × List (Option Candidate) × S)
      (answer : List ConnectionImportResultView × PendingImport × S)
      → ◌≡◌ {A = Result ApplicationError (List ConnectionImportResultView × PendingImport × S)}
          (ok (reached.0, record pending { candidates = reached.1 }, reached.2))
          (ok answer)
      → AreClosed reached.0 reached.1
      → AreClosed answer.0 answer.1.candidates
  answer-AreClosed pending reached answer h closed =
      let same_views : reached.0 ≡ answer.0 = cc (h) in
      let same_pending : record pending { candidates = reached.1 } ≡ answer.1 = cc (h) in
      let same_slots = ap (λ (q : PendingImport). q.candidates) same_pending in
      subst (λ views. AreClosed views answer.1.candidates) same_views
        (subst (AreClosed reached.0) same_slots closed)

  refused_again :
      (pending : PendingImport) (views : List ConnectionImportResultView)
      → AreClosed views pending.candidates
      → All
          (λ v.
            v.status ≡ saved
            → (key : Text) (i later : ℕ) (more : List Text) (s2 : S) → parse_usize v.key ≡ some i
            → parse_usize key ≡ some i
            → import_connections test_connection save later (some pending) (key ∷ more) s2
              ≡ err import_expired)
          views
  refused_again pending [] closed = tt
  refused_again pending (v ∷ views) (here, later_ones) = (
    λ done key i later more s2 at_view at_key.
        import-IsClosed pending key i later more s2 at_key (here done i at_view),
    refused_again pending views later_ones,
  )

  imported_parts :
      (pending : PendingImport) (keys : List Text) (s s' : S)
      (views : List ConnectionImportResultView) (pending' : PendingImport)
      → import_selected test_connection save pending keys s ≡ ok (views, pending', s')
      → AreClosed views pending'.candidates
  unfolding import_selected
  imported_parts pending keys s s' views pending' h =
      let (selected, chosen, h1) = >>=-eq-ok (select_keys pending.candidates [] keys) _ h in
      let (_, h2) = reject_if-eq-ok (is_empty selected) _ _ h1 in
      let parsed = select_keys-AreParsed pending.candidates [] keys chosen in
      let done = import_all-AreClosed selected pending.candidates s parsed in
      answer-AreClosed pending (import_all test_connection save selected pending.candidates s)
        (views, pending', s') h2 done

  -- A candidate that an import reports as saved is gone from the preview: a later import whose
  -- first key stands for the same candidate, in whatever spelling, is refused at any time.
  pub imported_once :
      (pending pending' : PendingImport) (now : ℕ) (keys : List Text) (s s' : S)
      (views : List ConnectionImportResultView)
      → import_connections test_connection save now (some pending) keys s ≡ ok (views, pending', s')
      → All
          (λ v.
            v.status ≡ saved
            → (key : Text) (i later : ℕ) (more : List Text) (s2 : S) → parse_usize v.key ≡ some i
            → parse_usize key ≡ some i
            → import_connections test_connection save later (some pending') (key ∷ more) s2
              ≡ err import_expired)
          views
  unfolding import_connections
  imported_once pending pending' now keys s s' views h =
      elim (Bool-cases (ltb pending_import_ttl (now - pending.created))) [
        | inl late ↦ cc (sym (if_late late) ∙ h)
        | inr early ↦
            refused_again pending' views
              (imported_parts pending keys s s' views pending' (sym (if_early early) ∙ h))
      ]
    where
      if_late :
          ltb pending_import_ttl (now - pending.created) ≡ true
          → import_connections test_connection save now (some pending) keys s ≡ err import_expired
      if_late late = rw late refl

      if_early :
          ltb pending_import_ttl (now - pending.created) ≡ false
          → import_connections test_connection save now (some pending) keys s
            ≡ import_selected test_connection save pending keys s
      if_early early = rw early refl
