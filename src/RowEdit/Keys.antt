-- ===== src/RowEdit/Keys.antt =====
-- The key that identifies an edited row.
use draco.Base.{
  ltb, ◌==◌, Bool-cases, Option-cases, is_some, length, is_empty, any, All, ok, >>=-eq-ok, ok_or,
  reject_if-eq-ok, ◌+◌, ◌≡◌, refl, ◌⊎◌, inl, inr, Bool, false, not, ◌||◌, Option, none, some, List,
  [], ◌∷◌, arith,
}
use draco.Text.{Text, codes, text_eq, text_eq_iff, byte_len}
use draco.Text.Assoc.{HashMap, get, remove, insert, get-remove, get-insert}
use draco.Error.{ApplicationError}
use draco.Import.{member, AreDistinct}
use draco.RowEdit.{
  TableCellInput, validate_schema_object_name, parse_json_value, supply, take_keys,
  validate_row_keys,
}

abbrev pub columns_of {ℓ} : {V : Type ℓ} → List (Text × V) → List Text
columns_of [] = []
columns_of (r ∷ rest) = r.0 ∷ columns_of rest

-- The column stands among the cells, with a text that is this value.
abbrev pub IsGiven : {V : Type 0} → (Text → Option V) → List TableCellInput → Text → V → Type 0
IsGiven from_str [] k v = ⊥
IsGiven from_str (cell ∷ cells) k v =
    ((cell.column ≡ k) × (from_str cell.value_json ≡ some v)) ⊎ IsGiven from_str cells k v

module _ {V : Type 0} (from_str : Text → Option V) (is_null : V → Bool)
    (all_cells : List TableCellInput) where
  -- A value that is not null and was given for the column.
  abbrev IsGood : Text → V → Type 0
  IsGood k v = (is_null v ≡ false) × IsGiven from_str all_cells k v

  abbrev HasNoNull : HashMap V → Type 0
  HasNoNull m = (k : Text) (v : V) → get k m ≡ some v → IsGood k v

  insert-HasNoNull :
      (m : HashMap V) (c : Text) (value : V)
      → HasNoNull m
      → IsGood c value
      → HasNoNull (insert c value m)
  insert-HasNoNull m c value h filled k v found = elim (Bool-cases (text_eq c k)) [
    | inl same ↦
        let e : value ≡ v = cc (same, get-insert c k value m, found) in
        let at : c ≡ k = (text_eq_iff c k).0 same in rw (← e) (rw (← at) filled)
    | inr differs ↦ h k v (cc (differs, get-insert c k value m, found))
  ]

  remove-HasNoNull : (m : HashMap V) (c : Text) → HasNoNull m → HasNoNull (remove c m)
  remove-HasNoNull m c h k v found = elim (Bool-cases (text_eq c k)) [
    | inl same ↦ cc (same, get-remove c k m, found)
    | inr differs ↦ h k v (cc (differs, get-remove c k m, found))
  ]

  any-remove :
      (m : HashMap V) (c : Text) (cs : List Text)
      → member c cs ≡ false
      → any (λ column. not (is_some (get column m))) cs ≡ false
      → any (λ column. not (is_some (get column (remove c m)))) cs ≡ false
  unfolding member
  any-remove m c [] new here = refl
  any-remove m c (k ∷ cs) new here =
      ground (arith, get-remove c k m, any-remove m c cs, text_eq_iff c k, text_eq_iff k c)

  parsed_value :
      (text : Text) (value : V)
      → parse_json_value from_str is_null text ≡ ok value
      → from_str text ≡ some value
  unfolding parse_json_value
  parsed_value text value h =
      let (_, h1) = reject_if-eq-ok (ltb 1048576 (byte_len text)) _ _ h in read (from_str text) _ h1
    where
      read :
          (o : Option V) (failure : ApplicationError) → ok_or o failure ≡ ok value → o ≡ some value
      read none failure e = cc (e)
      read (some v) failure e = cc (e)

  -- The map has a place for each cell.
  length-remove_absent :
      (c : Text) (m : HashMap V) → is_some (get c m) ≡ false → length (remove c m) ≡ length m
  unfolding get remove
  length-remove_absent c [] h = refl
  length-remove_absent c ((k, v) ∷ m) h = ground (arith, length-remove_absent c m)

  length-supply :
      (keys : List TableCellInput) (start m : HashMap V)
      → supply from_str is_null start keys ≡ ok m
      → length m ≡ length start + length keys
  unfolding supply insert
  length-supply [] start m done = let same : start ≡ m = cc (done) in rw (← same) (omega arith)
  length-supply (key ∷ keys) start m done =
      let (_, named, h1) =
        >>=-eq-ok (validate_schema_object_name key.column (codes "label.primaryKeyColumn")) _
          done in
      let (value, parsed, h2) = >>=-eq-ok (parse_json_value from_str is_null key.value_json) _ h1 in
      let (filled, h3) = reject_if-eq-ok (is_null value) _ _ h2 in
      let (new, h4) = reject_if-eq-ok (is_some (get key.column start)) _ _ h3 in
      let ih = length-supply keys (insert key.column value start) m h4 in
      omega (arith, ih, length-remove_absent key.column start new)

  supply-HasNoNull :
      (keys : List TableCellInput) (start m : HashMap V)
      → ((k : Text) (v : V) → IsGiven from_str keys k v → IsGiven from_str all_cells k v)
      → HasNoNull start
      → supply from_str is_null start keys ≡ ok m
      → HasNoNull m
  unfolding supply
  supply-HasNoNull [] start m within h done = λ k v found. h k v (cc (done, found))
  supply-HasNoNull (key ∷ keys) start m within h done =
      let (_, named, h1) =
        >>=-eq-ok (validate_schema_object_name key.column (codes "label.primaryKeyColumn")) _
          done in
      let (value, parsed, h2) = >>=-eq-ok (parse_json_value from_str is_null key.value_json) _ h1 in
      let (filled, h3) = reject_if-eq-ok (is_null value) _ _ h2 in
      let (new, h4) = reject_if-eq-ok (is_some (get key.column start)) _ _ h3 in
      let given = within key.column value (inl (refl, parsed_value key.value_json value parsed)) in
      supply-HasNoNull keys (insert key.column value start) m (λ k v later. within k v (inr later))
        (insert-HasNoNull start key.column value h (filled, given)) h4

  abbrev NotNull : Text × V → Type 0
  NotNull r = IsGood r.0 r.1

  take_keys-some :
      (m : HashMap V) (columns : List Text)
      → AreDistinct columns
      → HasNoNull m
      → any (λ column. not (is_some (get column m))) columns ≡ false
      → (r : List (Text × V)) × (take_keys from_str is_null m columns ≡ some r)
        × (columns_of r ≡ columns)
        × All NotNull r
  unfolding take_keys
  take_keys-some m [] d h here = ([], refl, refl, tt)
  take_keys-some m (c ∷ cs) d h here = elim (Option-cases (get c m)) [
    | inl absent ↦ ground arith
    | inr (value, found) ↦
        let (r, taken, same, filled) =
          take_keys-some (remove c m) cs d.1 (remove-HasNoNull m c h)
            (any-remove m c cs d.0 (ground arith)) in
        ((c, value) ∷ r, rw (found, taken, take_keys) refl, cc same, (h c value found, filled))
  ]

-- The key that an edit or a deletion of a row is given has as many cells as the primary key has
-- columns, and the lookup behind the check does not fail: what it finds are exactly the columns of
-- the primary key, in their order, each with a value that is not null and that a cell of that
-- column holds. The columns of the primary key are distinct, as the catalog has them.
pub validate_row_keys_complete :
    {V : Type 0} (from_str : Text → Option V) (is_null : V → Bool) (keys : List TableCellInput)
    (primary_keys : List Text) (o : Option (List (Text × V)))
    → AreDistinct primary_keys
    → validate_row_keys from_str is_null keys primary_keys ≡ ok o
    → (length keys ≡ length primary_keys)
      × (r : List (Text × V)) × (o ≡ some r)
      × (columns_of r ≡ primary_keys)
      × All (λ (e : Text × V). (is_null e.1 ≡ false) × IsGiven from_str keys e.0 e.1) r
unfolding validate_row_keys
validate_row_keys_complete from_str is_null keys primary_keys o distinct done =
    let (_, h1) = reject_if-eq-ok (is_empty primary_keys) _ _ done in
    let (m, supplied, h2) = >>=-eq-ok (supply from_str is_null [] keys) _ h1 in
    let (checked, h3) =
      reject_if-eq-ok
        (not (length m == length primary_keys)
          || any (λ column. not (is_some (get column m))) primary_keys)
        _ _ h2 in
    let filled =
      supply-HasNoNull from_str is_null keys keys [] m (λ k v given. given)
        (λ k v found. unfold get in cc found) supplied in
    let counted = length-supply from_str is_null keys keys [] m supplied in
    let (r, taken, same, values) =
      take_keys-some from_str is_null keys m primary_keys distinct filled (ground arith) in
    (ground (arith, counted, checked), r, cc (h3, taken), same, values)
