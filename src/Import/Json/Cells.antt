-- ===== src/Import/Json/Cells.antt =====
-- What the rows of a JSON import hold.
use draco.Base.{
  if◌then◌else◌, length, All, Result, ok, >>=-eq-ok, ℕ, ◌+◌, ◌≡◌, refl, ap, ◌∙◌, true, false,
  Option, none, some, List, [], ◌∷◌, map,
}
use draco.Text.{Text, codes, text_eq}
use draco.Text.Assoc.{HashMap}
use draco.Import.{ImportParseError, member}
use draco.Import.Json.{
  JsonKind, null, text_value, flag, number, nested, JsonItem, object, other, add_keys,
  collect_objects, text_of_kind, json_to_text, fill_row, fill_rows,
}
use draco.Import.Json.Header.{
  AreColumns, AreColumns-weaken, IsHeader, add_keys-IsExtended, no_value, position, replace_at-map,
  replaced, replicate-map,
}

pub ok-injective :
    {A : Type 0} {x y : A} → ◌≡◌ {A = Result ImportParseError A} (ok x) (ok y) → x ≡ y
ok-injective e = cc (e)

module _ {V : Type 0} where
  -- The columns and objects that the loop over the items gives.
  pub record IsCollected (items : List (JsonItem V)) (known : List Text)
      (found : List (List (Text × V)) × List Text × HashMap ℕ) : Type 0 where
    pub all_objects : items ≡ map object found.0
    pub header : IsHeader found.1 found.2
    pub covered : All (AreColumns found.1) found.0
    pub more : (k : Text) → member k known ≡ true → member k found.1 ≡ true

  pub collect_objects-IsCollected :
      (position : ℕ) (items : List (JsonItem V)) (header : List Text × HashMap ℕ)
      {found : List (List (Text × V)) × List Text × HashMap ℕ}
      → IsHeader header.0 header.1
      → collect_objects position items header ≡ ok found
      → IsCollected items header.0 found
  unfolding collect_objects
  collect_objects-IsCollected position [] header {found} h done =
      let same = ok-injective done in
      rw (← same) (record { all_objects = refl; header = h; covered = tt; more = λ k known. known })
  collect_objects-IsCollected position (other ∷ items) header h done = cc (done)
  collect_objects-IsCollected position (object fields ∷ items) header {found} h done =
      let extended = add_keys-IsExtended fields header.0 header.1 h in
      let (later, at, last) =
        >>=-eq-ok (collect_objects (position + 1) items (add_keys fields header)) _ done in
      let rest =
        collect_objects-IsCollected (position + 1) items (add_keys fields header) extended.header
          at in
      let same = ok-injective last in
      rw (← same) (record {
        all_objects = ap (λ tail. object fields ∷ tail) rest.all_objects;
        header = rest.header;
        covered = (
          AreColumns-weaken (add_keys fields header).0 later.1 fields rest.more extended.covered,
          rest.covered,
        );
        more = λ k known. rest.more k (extended.more k known);
      })

  module _ (kind_of : V → JsonKind) (to_string : V → Text) where
    -- The text of a JSON value: none of null, a string itself, all others as JSON spells them.
    unfoldable pub meant_text : V → Option Text
    meant_text value = elim (kind_of value) [
      | null ↦ none
      | text_value text ↦ some text
      | flag b ↦ some (if b then codes "true" else codes "false")
      | number ↦ some (to_string value)
      | nested ↦ some (to_string value)
    ]

    pub json_to_text-meant_text :
        (value : V) → json_to_text kind_of to_string value ≡ meant_text value
    unfolding meant_text
    json_to_text-meant_text value = by_kind (kind_of value)
      where
        by_kind :
            (kind : JsonKind)
            → text_of_kind kind_of to_string kind (to_string value) ≡ elim kind [
              | null ↦ none
              | text_value text ↦ some text
              | flag b ↦ some (if b then codes "true" else codes "false")
              | number ↦ some (to_string value)
              | nested ↦ some (to_string value)
            ]
        by_kind null = refl
        by_kind (text_value text) = refl
        by_kind (flag true) = refl
        by_kind (flag false) = refl
        by_kind number = refl
        by_kind nested = refl

    -- The value of a column: what the object says last of its name, or else what was there.
    unfoldable pub cell_after : Option Text → Text → List (Text × V) → Option Text
    cell_after before column [] = before
    cell_after before column ((key, value) ∷ fields) =
        cell_after (if text_eq key column then json_to_text kind_of to_string value else before)
          column fields

    -- The rows as they are meant: in each column the object's value of that name, or NULL.
    abbrev pub meant_row : List Text → List (Text × V) → List (Option Text)
    meant_row columns fields = map (λ column. cell_after none column fields) columns

    fill_row-map :
        (columns : List Text) (index : HashMap ℕ) (fields : List (Text × V))
        (f : Text → Option Text)
        → IsHeader columns index
        → AreColumns columns fields
        → fill_row kind_of to_string index fields (map f columns)
          ≡ some (map (λ column. cell_after (f column) column fields) columns)
    unfolding fill_row cell_after
    fill_row-map columns index [] f h covered = refl
    fill_row-map columns index ((key, value) ∷ fields) f h (here, covered) =
        let text = json_to_text kind_of to_string value in
        let (place, at, done) = replace_at-map f key text columns h.distinct here in
        let stored = h.placed key ∙ at in
        let rest = fill_row-map columns index fields (replaced f key text) h covered in
        rw (stored, fill_row) (rw (done, fill_row) rest)

    pub fill_rows-map :
        (columns : List Text) (index : HashMap ℕ) (objects : List (List (Text × V)))
        → IsHeader columns index
        → All (AreColumns columns) objects
        → fill_rows kind_of to_string index (length columns) objects
          ≡ some (map (meant_row columns) objects)
    unfolding fill_rows
    fill_rows-map columns index [] h covered = refl
    fill_rows-map columns index (fields ∷ objects) h (here, covered) =
        let first = fill_row-map columns index fields no_value h here in
        let others = fill_rows-map columns index objects h covered in
        rw (replicate-map columns, fill_rows) (rw (first, fill_rows) (rw (others, fill_rows) refl))
