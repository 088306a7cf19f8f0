-- ===== src/SchemaDiff/Script/Dropless.antt =====
-- Which statements the changes to the columns of a table hold.
use draco.Base.{
  ◌==◌, if◌then◌else◌, Bool-cases, Option-cases, get_elem?, All, All-append, ℕ, ◌≡◌, refl, ap, ◌≢◌,
  inl, inr, Bool, true, false, not, Option, none, some, List, [], ◌∷◌, ◌++◌, arith,
}
use draco.Text.{Text, codes, text_eq}
use draco.Import.{member}
use draco.SchemaDiff.{ColumnSnapshot, Phase, tables_phase, Builder, push, push_if}
use draco.SchemaDiff.Ident.{quote_ident}
use draco.SchemaDiff.Render.{format, column_definition}
use draco.SchemaDiff.Tables.{
  alter, same_text, find_column, alter_identity, retype, drop_identity, change_default, change_null,
  alter_existing, alter_found, alter_columns, drop_one, drop_columns,
}
use draco.SchemaDiff.Script.Flagged.{drop_columns-flag}

-- The statement drops no column of the table: those that do stand in the phase of the tables.
abbrev pub DropsNoColumn : Text → Phase × Text → Type 0
DropsNoColumn q s =
    s.0 ≡ tables_phase
    → (rest : Text) → s.1 ≢ codes "ALTER TABLE " ++ (q ++ (codes " DROP COLUMN " ++ rest))

abbrev pub AreDropless : Text → Builder → Type 0
AreDropless q b = All (DropsNoColumn q) b.statements

after_name : (q s t : Text) → q ++ s ≡ q ++ t → s ≡ t
after_name [] s t h = h
after_name (c ∷ q) s t h = after_name q s t (cc (h))

-- What stands behind the table's name in a statement on it.
after_table :
    (q s t : Text) → codes "ALTER TABLE " ++ (q ++ s) ≡ codes "ALTER TABLE " ++ (q ++ t) → s ≡ t
after_table q s t h = after_name q s t (cc (h))

pub push-AreDropless :
    (q : Text) (b : Builder) (s : Phase × Text)
    → AreDropless q b
    → DropsNoColumn q s
    → AreDropless q (push b s.0 s.1)
push-AreDropless q b s h calm = All-append (DropsNoColumn q) b.statements (s ∷ []) h (calm, tt)

pub push_if-AreDropless :
    (test : Bool) (q : Text) (b : Builder) (s : Phase × Text)
    → AreDropless q b
    → DropsNoColumn q s
    → AreDropless q (push_if test b s.0 s.1)
push_if-AreDropless true q b s h calm = push-AreDropless q b s h calm
push_if-AreDropless false q b s h calm = h

literal_apart : (a b : ℕ) → (a == b) ≡ false → ◌≡◌ {A = Option ℕ} (some a) (some b) → ⊥
literal_apart a b differ e = let same : a ≡ b = cc (e) in ground (arith, differ, same)

altering-keeps :
    (q : Text) (parts : List Text)
    → DropsNoColumn q (tables_phase, alter q (codes "ALTER COLUMN " ∷ parts))
altering-keeps q parts here rest h =
    let behind =
      after_table q (format (codes " " ∷ codes "ALTER COLUMN " ∷ parts))
        (codes " DROP COLUMN " ++ rest) h in
    literal_apart b'A' b'D' refl (ap (λ (s : Text). get_elem? s 1) behind)

adding-keeps :
    (phase : Phase) (q : Text) (parts : List Text)
    → DropsNoColumn q (phase, alter q (codes "ADD COLUMN " ∷ parts))
adding-keeps phase q parts here rest h =
    let behind =
      after_table q (format (codes " " ∷ codes "ADD COLUMN " ∷ parts))
        (codes " DROP COLUMN " ++ rest) h in
    literal_apart b'A' b'D' refl (ap (λ (s : Text). get_elem? s 1) behind)

pub dropping_constraint-keeps :
    (phase : Phase) (q : Text) (parts : List Text)
    → DropsNoColumn q (phase, alter q (codes "DROP CONSTRAINT " ∷ parts))
dropping_constraint-keeps phase q parts here rest h =
    let behind =
      after_table q (format (codes " " ∷ codes "DROP CONSTRAINT " ∷ parts))
        (codes " DROP COLUMN " ++ rest) h in
    literal_apart b'N' b'L' refl (ap (λ (s : Text). get_elem? s 8) behind)

pub adding_constraint-keeps :
    (phase : Phase) (q : Text) (parts : List Text)
    → DropsNoColumn q (phase, alter q (codes "ADD CONSTRAINT " ∷ parts))
adding_constraint-keeps phase q parts here rest h =
    let behind =
      after_table q (format (codes " " ∷ codes "ADD CONSTRAINT " ∷ parts))
        (codes " DROP COLUMN " ++ rest) h in
    literal_apart b'A' b'D' refl (ap (λ (s : Text). get_elem? s 1) behind)

pub other_phase : (phase : Phase) (q s : Text) → (phase ≢ tables_phase) → DropsNoColumn q (phase, s)
other_phase phase q s apart here = absurd (apart here)

retype-AreDropless :
    (q : Text) (b : Builder) (c existing : ColumnSnapshot)
    → AreDropless q b
    → AreDropless q (retype b q c existing)
unfolding retype
retype-AreDropless q b c existing h = elim (Bool-cases (text_eq existing.data_type c.data_type)) [
  | inl same ↦ rw same h
  | inr other_type ↦ rw other_type (
      push-AreDropless q b (tables_phase, _) h
        (altering-keeps q (
          quote_ident c.name
          ∷ codes " "
          ∷ codes "TYPE "
          ∷ c.data_type
          ∷ codes " USING "
          ∷ quote_ident c.name
          ∷ codes "::"
          ∷ c.data_type
          ∷ [])))
]

drop_identity-AreDropless :
    (q : Text) (b : Builder) (c existing : ColumnSnapshot)
    → AreDropless q b
    → AreDropless q (drop_identity b q c existing)
unfolding drop_identity
drop_identity-AreDropless q b c existing h =
    push_if-AreDropless _ q b (tables_phase, _) h
      (altering-keeps q (quote_ident c.name ∷ codes " " ∷ codes "DROP IDENTITY" ∷ []))

change_null-AreDropless :
    (q : Text) (b : Builder) (c existing : ColumnSnapshot)
    → AreDropless q b
    → AreDropless q (change_null b q c existing)
unfolding change_null
change_null-AreDropless q b c existing h =
    push_if-AreDropless _ q b (tables_phase, _) h
      (altering-keeps q (
        quote_ident c.name
        ∷ codes " "
        ∷ (if c.not_null then codes "SET" else codes "DROP")
        ∷ codes " NOT NULL"
        ∷ []))

change_default-AreDropless :
    (q : Text) (b : Builder) (c existing : ColumnSnapshot)
    → AreDropless q b
    → AreDropless q (change_default b q c existing)
unfolding change_default
change_default-AreDropless q b c existing h =
    push_if-AreDropless _ q b (tables_phase, _) h (set_default-keeps c.default)
  where
    set_default-keeps :
        (d : Option Text)
        → DropsNoColumn q (
          tables_phase,
          elim d as (λ _. Text) [
            | none ↦
                alter q (
                  codes "ALTER COLUMN "
                  ∷ quote_ident c.name
                  ∷ codes " "
                  ∷ codes "DROP DEFAULT"
                  ∷ [])
            | some default ↦ alter q (
                codes "ALTER COLUMN "
                ∷ quote_ident c.name
                ∷ codes " "
                ∷ codes "SET DEFAULT "
                ∷ default
                ∷ [])
          ],
        )
    set_default-keeps none =
        altering-keeps q (quote_ident c.name ∷ codes " " ∷ codes "DROP DEFAULT" ∷ [])
    set_default-keeps (some default) =
        altering-keeps q (quote_ident c.name ∷ codes " " ∷ codes "SET DEFAULT " ∷ default ∷ [])

alter_identity-AreDropless :
    (q : Text) (b : Builder) (c existing : ColumnSnapshot)
    → AreDropless q b
    → AreDropless q (alter_identity b q c existing)
unfolding alter_identity
alter_identity-AreDropless q b c existing h = elim (Option-cases c.identity) [
  | inl plain ↦ rw (plain, alter_identity) h
  | inr (identity, wanted) ↦
      let kind = if identity == b'a' then codes "ALWAYS" else codes "BY DEFAULT" in
      let required : Text = alter q (quoted (codes "SET NOT NULL" ∷ [])) in
      let b1 = push_if (not existing.not_null) b tables_phase required in
      let h1 =
        push_if-AreDropless (not existing.not_null) q b (tables_phase, required) h
          (altering-keeps q (quote_ident c.name ∷ codes " " ∷ codes "SET NOT NULL" ∷ [])) in
      elim (Option-cases existing.identity) [
        | inl new ↦
            rw (wanted, new, alter_identity)
              (push-AreDropless q b1
                (
                  tables_phase,
                  alter q (quoted (codes "ADD GENERATED " ∷ kind ∷ codes " AS IDENTITY" ∷ [])),
                )
                h1
                (altering-keeps q (
                  quote_ident c.name
                  ∷ codes " "
                  ∷ codes "ADD GENERATED "
                  ∷ kind
                  ∷ codes " AS IDENTITY"
                  ∷ [])))
        | inr (current, known) ↦
            rw (wanted, known, alter_identity)
              (push_if-AreDropless (not (current == identity)) q b
                (tables_phase, alter q (quoted (codes "SET GENERATED " ∷ kind ∷ []))) h
                (altering-keeps q
                  (quote_ident c.name ∷ codes " " ∷ codes "SET GENERATED " ∷ kind ∷ [])))
      ]
]
  where
    quoted : List Text → List Text
    quoted parts = codes "ALTER COLUMN " ∷ quote_ident c.name ∷ codes " " ∷ parts

alter_found-AreDropless :
    (q : Text) (b : Builder) (c : ColumnSnapshot) (met : Option ColumnSnapshot)
    → AreDropless q b
    → AreDropless q (alter_found b q c met)
unfolding alter_found alter_existing
alter_found-AreDropless q b c none h =
    push-AreDropless q b (tables_phase, _) h
      (adding-keeps tables_phase q (column_definition c ∷ []))
alter_found-AreDropless q b c (some existing) h =
    elim (Bool-cases (same_text existing.generated c.generated)) [
      | inl same ↦
          let b1 = retype b q c existing in
          let b2 = drop_identity b1 q c existing in
          let b3 = change_default b2 q c existing in
          let h1 = retype-AreDropless q b c existing h in
          let h2 = drop_identity-AreDropless q b1 c existing h1 in
          let h3 = change_default-AreDropless q b2 c existing h2 in
          let h4 = alter_identity-AreDropless q b3 c existing h3 in
          rw same (change_null-AreDropless q (alter_identity b3 q c existing) c existing h4)
      | inr differs ↦ rw differs h
    ]

pub alter_columns-AreDropless :
    (q : Text) (b : Builder) (columns cs : List ColumnSnapshot)
    → AreDropless q b
    → AreDropless q (alter_columns b q columns cs)
unfolding alter_columns
alter_columns-AreDropless q b columns [] h = h
alter_columns-AreDropless q b columns (c ∷ cs) h =
    alter_columns-AreDropless q (alter_found b q c (find_column c.name columns)) columns cs
      (alter_found-AreDropless q b c (find_column c.name columns) h)

-- A column is dropped only with the flag.
pub drop_columns-AreDropless :
    (q : Text) (b : Builder) (wanted : List Text) (cs : List ColumnSnapshot)
    → (drop_columns b q wanted cs).destructive ≡ false
    → AreDropless q b
    → AreDropless q (drop_columns b q wanted cs)
unfolding drop_columns drop_one
drop_columns-AreDropless q b wanted [] calm h = h
drop_columns-AreDropless q b wanted (c ∷ cs) calm h = elim (Bool-cases (member c.name wanted)) [
  | inl kept ↦
      drop_columns-AreDropless q (drop_one b q wanted c) wanted cs calm (rw (kept, drop_one) h)
  | inr dropped ↦
      let (before, _) = drop_columns-flag (drop_one b q wanted c) q wanted cs calm in
      let flagged : (drop_one b q wanted c).destructive ≡ true = rw (dropped, drop_one) refl in
      cc (before, flagged)
]
