-- ===== src/Import/Json/Objects.antt =====
-- An object as it is read from the file, where a name may stand more than once.
use draco.Base.{
  if◌then◌else◌, Bool-cases, ◌≡◌, refl, ◌∙◌, inl, inr, true, false, ◌||◌, Option, List, [], ◌∷◌,
  map, arith,
}
use draco.Text.{Text, text_eq, text_eq_iff}
use draco.Import.{member, AreDistinct}
use draco.Import.Json.{JsonKind, put_field, visit_map, json_to_text}
use draco.Import.Json.Header.{AreColumns}
use draco.Import.Json.Cells.{cell_after}

module _ {V : Type 0} where
  abbrev names : List (Text × V) → List Text
  names fields = map (λ (field : Text × V). field.0) fields

  member-put_field :
      (j key : Text) (value : V) (fields : List (Text × V))
      → member j (names (put_field key value fields)) ≡ (member j (names fields) || text_eq key j)
  unfolding member put_field
  member-put_field j key value [] = ground arith
  member-put_field j key value ((k, v) ∷ fields) = elim (Bool-cases (text_eq k key)) [
    | inl same ↦ rw same (ground (arith, text_eq_iff k key, text_eq_iff k j, text_eq_iff key j))
    | inr apart ↦ rw apart (ground (arith, member-put_field j key value fields))
  ]

  put_field-AreDistinct :
      (key : Text) (value : V) (fields : List (Text × V))
      → AreDistinct (names fields)
      → AreDistinct (names (put_field key value fields))
  unfolding member put_field
  put_field-AreDistinct key value [] h = (refl, tt)
  put_field-AreDistinct key value ((k, v) ∷ fields) (fresh, h) = elim (Bool-cases (text_eq k key)) [
    | inl same ↦ rw same (fresh, h)
    | inr apart ↦
        let absent : member k (names (put_field key value fields)) ≡ false =
          ground
            (arith, member-put_field k key value fields, text_eq_iff key k, text_eq_iff k key) in
        rw apart (absent, put_field-AreDistinct key value fields h)
  ]

  put_field-AreColumns :
      (columns : List Text) (key : Text) (value : V) (fields : List (Text × V))
      → AreColumns columns (put_field key value fields)
      → (member key columns ≡ true) × AreColumns columns fields
  unfolding put_field
  put_field-AreColumns columns key value [] h = h
  put_field-AreColumns columns key value ((k, v) ∷ fields) h = elim (Bool-cases (text_eq k key)) [
    | inl same ↦
        let (here, rest) = in_place same h in (rw (← (text_eq_iff k key).0 same) here, (here, rest))
    | inr apart ↦
        let (here, rest) = further apart h in
        let (found, others) = put_field-AreColumns columns key value fields rest in
        (found, (here, others))
  ]
    where
      in_place :
          text_eq k key ≡ true
          → AreColumns columns (put_field key value ((k, v) ∷ fields))
          → (member k columns ≡ true) × AreColumns columns fields
      in_place same = rw same (λ g. g)

      further :
          text_eq k key ≡ false
          → AreColumns columns (put_field key value ((k, v) ∷ fields))
          → (member k columns ≡ true) × AreColumns columns (put_field key value fields)
      further apart = rw apart (λ g. g)

  -- The columns of an object's fields are those of its entries.
  pub visit_map-AreColumns :
      (columns : List Text) (fields entries : List (Text × V))
      → AreColumns columns (visit_map fields entries)
      → AreColumns columns fields × AreColumns columns entries
  unfolding visit_map
  visit_map-AreColumns columns fields [] h = (h, tt)
  visit_map-AreColumns columns fields ((key, value) ∷ entries) h =
      let (seen, later) = visit_map-AreColumns columns (put_field key value fields) entries h in
      let (here, before) = put_field-AreColumns columns key value fields seen in
      (before, (here, later))

  module _ (kind_of : V → JsonKind) (to_string : V → Text) where
    cell_after-absent :
        (before : Option Text) (column : Text) (fields : List (Text × V))
        → member column (names fields) ≡ false
        → cell_after kind_of to_string before column fields ≡ before
    unfolding cell_after member
    cell_after-absent before column [] h = refl
    cell_after-absent before column ((k, v) ∷ fields) h =
        let apart : text_eq k column ≡ false = ground arith in
        rw apart (cell_after-absent before column fields (ground arith))

    cell_after-put_field :
        (before : Option Text) (column key : Text) (value : V) (fields : List (Text × V))
        → AreDistinct (names fields)
        → cell_after kind_of to_string before column (put_field key value fields) ≡ (
            if text_eq key column
            then json_to_text kind_of to_string value
            else cell_after kind_of to_string before column fields)
    unfolding cell_after put_field
    cell_after-put_field before column key value [] h = refl
    cell_after-put_field before column key value ((k, v) ∷ fields) (fresh, h) =
        elim (Bool-cases (text_eq k key)) [
          | inl same ↦ elim (Bool-cases (text_eq key column)) [
            | inl here ↦
                let equal = (text_eq_iff k key).0 same ∙ (text_eq_iff key column).0 here in
                let at : text_eq k column ≡ true = (text_eq_iff k column).1 equal in
                let none_later =
                  cell_after-absent (json_to_text kind_of to_string value) column fields
                    (rw (← equal) fresh) in
                rw same (rw here (rw (at, cell_after) none_later))
            | inr away ↦
                let off : text_eq k column ≡ false =
                  ground (arith, text_eq_iff k key, text_eq_iff k column, text_eq_iff key column) in
                rw same (rw away (rw (off, cell_after) refl))
          ]
          | inr apart ↦ rw apart (
              cell_after-put_field
                (if text_eq k column then json_to_text kind_of to_string v else before) column key
                value fields h)
        ]

    -- The last value of a name counts.
    pub cell_after-visit_map :
        (before : Option Text) (column : Text) (fields entries : List (Text × V))
        → AreDistinct (names fields)
        → cell_after kind_of to_string before column (visit_map fields entries)
          ≡ cell_after kind_of to_string
              (cell_after kind_of to_string before column fields)
              column
              entries
    unfolding cell_after visit_map
    cell_after-visit_map before column fields [] h = refl
    cell_after-visit_map before column fields ((key, value) ∷ entries) h =
        let ih =
          cell_after-visit_map before column (put_field key value fields) entries
            (put_field-AreDistinct key value fields h) in
        ih ∙ rw (cell_after-put_field before column key value fields h) refl
