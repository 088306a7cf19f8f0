-- ===== src/ConnectionImport/Targets.antt =====
-- What `pgpass_connections` returns.
use draco.Base.{
  ltb, ltb→lt, Bool-cases, Option-cases, is_empty, any, All, ℕ, ◌^◌, ◌<◌, ◌≡◌, refl, inl, inr, Bool,
  true, false, Option, none, some, List, [], ◌∷◌, arith,
}
use draco.Text.{Text, text_eq_iff, starts_with}
use draco.ConnectionImport.{
  PgpassEntry, ImportedConnection, digits_value, strip_plus, keep_if, parse_u16, parse_port,
  is_skipped, target_port, connection_at, named_target, same_target, connections_from,
  pgpass_connections,
}

-- A connection that can be dialled: a host that is a name, and a port other than zero that fits
-- 16 bits.
abbrev pub IsDialable : ImportedConnection → Type 0
IsDialable c =
    (is_empty c.host ≡ false)
    × (starts_with (b'/' ∷ []) c.host ≡ false)
    × (0 < c.port)
    × (c.port < 2 ^ 16)

abbrev AreNewTo : List ImportedConnection → List ImportedConnection → Type 0
AreNewTo seen cs = All (λ c. any (same_target c) seen ≡ false) cs

-- The same place and the same role.
pub record IsSameTarget (d c : ImportedConnection) : Type 0 where
  pub same_host : d.host ≡ c.host
  pub same_port : d.port ≡ c.port
  pub same_database : d.database ≡ c.database
  pub same_user : d.user ≡ c.user

-- No connection has the target of an earlier one.
abbrev pub AreApart : List ImportedConnection → Type 0
AreApart [] = Unit
AreApart (c ∷ cs) = All (λ d. ¬ IsSameTarget d c) cs × AreApart cs

same_target-apart : (d c : ImportedConnection) → same_target d c ≡ false → ¬ IsSameTarget d c
unfolding same_target
same_target-apart d c differ same = ground (
  arith,
  text_eq_iff d.host c.host,
  text_eq_iff d.database c.database,
  text_eq_iff d.user c.user,
  same.same_host,
  same.same_port,
  same.same_database,
  same.same_user,
)

each_apart :
    (c : ImportedConnection) (cs : List ImportedConnection)
    → All (λ d. same_target d c ≡ false) cs
    → All (λ d. ¬ IsSameTarget d c) cs
each_apart c [] h = tt
each_apart c (d ∷ ds) h = (same_target-apart d c h.0, each_apart c ds h.1)

keep_if-some :
    (test : ℕ → Bool) (o : Option ℕ) (n : ℕ)
    → keep_if test o ≡ some n
    → (test n ≡ true) × (o ≡ some n)
keep_if-some test none n h = ground arith
keep_if-some test (some m) n h = elim (Bool-cases (test m)) [
  | inl kept ↦ let same : some m ≡ some n = ground arith in (cc (kept, same), same)
  | inr dropped ↦ ground arith
]

parse_u16-bound : (value : Text) (n : ℕ) → parse_u16 value ≡ some n → n < 2 ^ 16
unfolding parse_u16
parse_u16-bound value n h = elim (Bool-cases (is_empty (strip_plus value))) [
  | inl nothing ↦ ground arith
  | inr digits ↦
      let (fits, _) =
        keep_if-some (λ m. ltb m (2 ^ 16)) (digits_value 0 (strip_plus value)) n (ground arith) in
      ltb→lt n (2 ^ 16) fits
]

parse_port-bounds :
    (value : Text) (port : ℕ) → parse_port value ≡ some port → (0 < port) × (port < 2 ^ 16)
unfolding parse_port
parse_port-bounds value port h =
    let (positive, parsed) = keep_if-some (λ n. ltb 0 n) (parse_u16 value) port h in
    (ltb→lt 0 port positive, parse_u16-bound value port parsed)

target_port-bounds :
    (e : PgpassEntry) (port : ℕ) → target_port e ≡ some port → (0 < port) × (port < 2 ^ 16)
unfolding target_port
target_port-bounds e port h = ground (arith, parse_port-bounds e.port port)

named_target-IsDialable :
    (e : PgpassEntry) (c : ImportedConnection) → named_target e ≡ some c → IsDialable c
unfolding named_target connection_at is_skipped
named_target-IsDialable e c h = ground (arith, target_port-bounds e c.port)

AreNewTo-cons :
    (c : ImportedConnection) (seen cs : List ImportedConnection)
    → AreNewTo (c ∷ seen) cs
    → AreNewTo seen cs × All (λ d. same_target d c ≡ false) cs
AreNewTo-cons c seen [] h = (tt, tt)
AreNewTo-cons c seen (d ∷ ds) h =
    let (old, apart) = AreNewTo-cons c seen ds h.1 in ((ground arith, old), (ground arith, apart))

connections_from-skip :
    (seen : List ImportedConnection) (e : PgpassEntry) (entries : List PgpassEntry)
    → named_target e ≡ none
    → connections_from seen (e ∷ entries) ≡ connections_from seen entries
unfolding connections_from
connections_from-skip seen e entries h = rw (h, connections_from) refl

connections_from-repeated :
    (seen : List ImportedConnection) (e : PgpassEntry) (entries : List PgpassEntry)
    (c : ImportedConnection)
    → named_target e ≡ some c
    → any (same_target c) seen ≡ true
    → connections_from seen (e ∷ entries) ≡ connections_from seen entries
unfolding connections_from
connections_from-repeated seen e entries c h old = rw (h, old, connections_from) refl

connections_from-new :
    (seen : List ImportedConnection) (e : PgpassEntry) (entries : List PgpassEntry)
    (c : ImportedConnection)
    → named_target e ≡ some c
    → any (same_target c) seen ≡ false
    → connections_from seen (e ∷ entries) ≡ c ∷ connections_from (c ∷ seen) entries
unfolding connections_from
connections_from-new seen e entries c h new = rw (h, new, connections_from) refl

connections_from_sound :
    (seen : List ImportedConnection) (entries : List PgpassEntry)
    → All IsDialable (connections_from seen entries)
      × AreNewTo seen (connections_from seen entries)
      × AreApart (connections_from seen entries)
unfolding connections_from
connections_from_sound seen [] = (tt, tt, tt)
connections_from_sound seen (e ∷ entries) = elim (Option-cases (named_target e)) [
  | inl unnamed ↦
      rw (connections_from-skip seen e entries unnamed) (connections_from_sound seen entries)
  | inr (c, named) ↦ elim (Bool-cases (any (same_target c) seen)) [
    | inl old ↦
        rw (connections_from-repeated seen e entries c named old)
          (connections_from_sound seen entries)
    | inr new ↦
        let (dialable, fresh, apart) = connections_from_sound (c ∷ seen) entries in
        let (older, here) = AreNewTo-cons c seen (connections_from (c ∷ seen) entries) fresh in
        rw (connections_from-new seen e entries c named new) (
          (named_target-IsDialable e c named, dialable),
          (new, older),
          (each_apart c (connections_from (c ∷ seen) entries) here, apart),
        )
  ]
]

-- Whatever lines the file has, every connection made from it has a host that is not empty and no
-- socket path, and a port from 1 to 65535, and no two of them have the same host, port, database
-- and user.
pub pgpass_connections_sound :
    (entries : List PgpassEntry)
    → All IsDialable (pgpass_connections entries) × AreApart (pgpass_connections entries)
unfolding pgpass_connections
pgpass_connections_sound entries =
    let (dialable, _, apart) = connections_from_sound [] entries in (dialable, apart)
