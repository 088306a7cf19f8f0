-- ===== src/Import/Json/Header.antt =====
-- The columns that a JSON import collects, and their places in a row.
use mathlib.Core.Option.{map as map_option}
use draco.Base.{
  if◌then◌else◌, Bool-cases, is_some, length, All, ℕ, suc, ◌≡◌, refl, sym, ap, ◌∙◌, inl, inr, Bool,
  true, false, ◌||◌, Option, none, some, List, [], ◌∷◌, ◌++◌, map, arith,
}
use draco.Text.{Text, text_eq, text_eq_iff, text_eq_refl}
use draco.Text.Assoc.{HashMap, get, insert, get-insert}
use draco.Import.{member, AreDistinct}
use draco.Import.Json.{replicate, replace_at, add_keys}

-- The first place of a name.
unfoldable pub position : Text → List Text → Option ℕ
position k [] = none
position k (c ∷ cs) =
    let rest = position k cs in if text_eq c k then some 0 else map_option suc rest

is_some-position : (k : Text) (cs : List Text) → is_some (position k cs) ≡ member k cs
unfolding position member
is_some-position k [] = refl
is_some-position k (c ∷ cs) = elim (Bool-cases (text_eq c k)) [
  | inl same ↦ rw same refl
  | inr apart ↦ rw apart (is_some-suc (position k cs) ∙ is_some-position k cs)
]
  where
    is_some-suc : (o : Option ℕ) → is_some (map_option suc o) ≡ is_some o
    is_some-suc none = refl
    is_some-suc (some i) = refl

abbrev or_place : Option ℕ → Option ℕ → Option ℕ
or_place none other_place = other_place
or_place (some i) other_place = some i

position-snoc :
    (k key : Text) (cs : List Text)
    → position k (cs ++ key ∷ [])
      ≡ or_place (position k cs) (if text_eq key k then some (length cs) else none)
unfolding position
position-snoc k key [] = ground arith
position-snoc k key (c ∷ cs) = elim (Bool-cases (text_eq c k)) [
  | inl same ↦ rw same refl
  | inr apart ↦
      rw apart (
        ap (map_option suc) (position-snoc k key cs) ∙ suc-or_place (position k cs) (text_eq key k))
]
  where
    suc-or_place :
        (o : Option ℕ) (b : Bool)
        → map_option suc (or_place o (if b then some (length cs) else none))
          ≡ or_place (map_option suc o) (if b then some (length (c ∷ cs)) else none)
    suc-or_place none true = refl
    suc-or_place none false = refl
    suc-or_place (some i) b = refl

member-snoc :
    (k key : Text) (cs : List Text) → member k (cs ++ key ∷ []) ≡ (member k cs || text_eq key k)
unfolding member
member-snoc k key [] = ground arith
member-snoc k key (c ∷ cs) = ground (arith, member-snoc k key cs)

snoc-AreDistinct :
    (key : Text) (cs : List Text)
    → AreDistinct cs
    → member key cs ≡ false
    → AreDistinct (cs ++ key ∷ [])
unfolding member
snoc-AreDistinct key [] h fresh = (refl, tt)
snoc-AreDistinct key (c ∷ cs) (apart, h) fresh = (
  ground (arith, member-snoc c key cs, text_eq_iff c key, text_eq_iff key c),
  snoc-AreDistinct key cs h (ground arith),
)

-- The columns, and the map of their places.
pub record IsHeader (columns : List Text) (index : HashMap ℕ) : Type 0 where
  pub distinct : AreDistinct columns
  pub placed : (k : Text) → get k index ≡ position k columns

snoc-IsHeader :
    (key : Text) (columns : List Text) (index : HashMap ℕ)
    → IsHeader columns index
    → is_some (get key index) ≡ false
    → IsHeader (columns ++ key ∷ []) (insert key (length columns) index)
snoc-IsHeader key columns index h fresh =
    let absent : is_some (position key columns) ≡ false = ap is_some (sym (h.placed key)) ∙ fresh in
    record {
      distinct =
          snoc-AreDistinct key columns h.distinct (sym (is_some-position key columns) ∙ absent);
      placed = λ k.
          get-insert key k (length columns) index
          ∙ placed_at k absent
          ∙ sym (position-snoc k key columns);
    }
  where
    or_place-none : (o p : Option ℕ) → is_some o ≡ false → or_place o p ≡ p
    or_place-none none p e = refl
    or_place-none (some i) p e = cc (e)

    or_place-same : (o : Option ℕ) → or_place o none ≡ o
    or_place-same none = refl
    or_place-same (some i) = refl

    placed_at :
        (k : Text)
        → is_some (position key columns) ≡ false
        → (if text_eq key k then some (length columns) else get k index)
          ≡ or_place (position k columns) (if text_eq key k then some (length columns) else none)
    placed_at k absent = elim (Bool-cases (text_eq key k)) [
      | inl same ↦
          let equal = (text_eq_iff key k).0 same in
          rw same (sym (or_place-none (position k columns) _ (rw (← equal) absent)))
      | inr apart ↦ rw apart (h.placed k ∙ sym (or_place-same (position k columns)))
    ]

-- The row that a function of the names gives, with one name's value replaced.
abbrev pub replaced : (Text → Option Text) → Text → Option Text → Text → Option Text
replaced f k x c = if text_eq k c then x else f c

map-replaced :
    (f : Text → Option Text) (k : Text) (x : Option Text) (cs : List Text)
    → member k cs ≡ false
    → map (replaced f k x) cs ≡ map f cs
unfolding member
map-replaced f k x [] fresh = refl
map-replaced f k x (c ∷ cs) fresh =
    let apart : text_eq k c ≡ false = ground (arith, text_eq_iff k c, text_eq_iff c k) in
    rw apart (ap (λ rest. f c ∷ rest) (map-replaced f k x cs (ground arith)))

pub replace_at-map :
    (f : Text → Option Text) (k : Text) (x : Option Text) (cs : List Text)
    → AreDistinct cs
    → member k cs ≡ true
    → (i : ℕ) × (position k cs ≡ some i)
      × (replace_at i x (map f cs) ≡ some (map (replaced f k x) cs))
unfolding member position replace_at
replace_at-map f k x [] distinct found = cc (found)
replace_at-map f k x (c ∷ cs) distinct found = elim (Bool-cases (text_eq c k)) [
  | inl same ↦
      let equal = (text_eq_iff c k).0 same in
      let fresh : member k cs ≡ false = rw (← equal) distinct.0 in
      let here : text_eq k c ≡ true = ground (arith, text_eq_iff k c, text_eq_iff c k) in
      (0, rw same refl, rw here (rw (map-replaced f k x cs fresh) refl))
  | inr apart ↦
      let here : text_eq k c ≡ false = ground (arith, text_eq_iff k c, text_eq_iff c k) in
      let (i, at, done) = replace_at-map f k x cs distinct.1 (ground arith) in
      (suc i, rw apart (rw at refl), rw here (rw done refl))
]

abbrev pub no_value : Text → Option Text
no_value c = none

pub replicate-map : (cs : List Text) → replicate (length cs) none ≡ map no_value cs
replicate-map [] = refl
replicate-map (c ∷ cs) = ap (λ rest. none ∷ rest) (replicate-map cs)

module _ {V : Type 0} where
  -- Every name of an object is a column.
  abbrev pub AreColumns : List Text → List (Text × V) → Type 0
  AreColumns columns fields = All (λ (field : Text × V). member field.0 columns ≡ true) fields

  pub AreColumns-weaken :
      (columns wider : List Text) (fields : List (Text × V))
      → ((k : Text) → member k columns ≡ true → member k wider ≡ true)
      → AreColumns columns fields
      → AreColumns wider fields
  AreColumns-weaken columns wider [] more h = tt
  AreColumns-weaken columns wider ((k, v) ∷ fields) more (here, rest) =
      (more k here, AreColumns-weaken columns wider fields more rest)

  -- What the loop over the keys of an object leaves of the header.
  pub record IsExtended (columns : List Text) (fields : List (Text × V))
      (wider : List Text × HashMap ℕ) : Type 0 where
    pub header : IsHeader wider.0 wider.1
    pub covered : AreColumns wider.0 fields
    pub more : (k : Text) → member k columns ≡ true → member k wider.0 ≡ true

  pub add_keys-IsExtended :
      (fields : List (Text × V)) (columns : List Text) (index : HashMap ℕ)
      → IsHeader columns index
      → IsExtended columns fields (add_keys fields (columns, index))
  unfolding add_keys
  add_keys-IsExtended [] columns index h = record {
    header = h;
    covered = tt;
    more = λ k found. found;
  }
  add_keys-IsExtended ((key, value) ∷ fields) columns index h =
      elim (Bool-cases (is_some (get key index))) [
        | inl known ↦
            let rest = add_keys-IsExtended fields columns index h in
            let found =
              sym (is_some-position key columns) ∙ ap is_some (sym (h.placed key)) ∙ known in
            rw known (record {
              header = rest.header;
              covered = (rest.more key found, rest.covered);
              more = rest.more;
            })
        | inr new ↦
            let wider = snoc-IsHeader key columns index h new in
            let rest =
              add_keys-IsExtended fields (columns ++ key ∷ []) (insert key (length columns) index)
                wider in
            rw new (record {
              header = rest.header;
              covered = (rest.more key (added key key (text_eq_refl key)), rest.covered);
              more = λ k found. rest.more k (kept k found);
            })
      ]
    where
      added : (k j : Text) → text_eq j k ≡ true → member k (columns ++ j ∷ []) ≡ true
      added k j same = ground (arith, member-snoc k j columns)

      kept : (k : Text) → member k columns ≡ true → member k (columns ++ key ∷ []) ≡ true
      kept k found = ground (arith, member-snoc k key columns)
