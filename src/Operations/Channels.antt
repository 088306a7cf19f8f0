-- ===== src/Operations/Channels.antt =====
-- Every registered operation has a channel of its own, whatever the tasks do.
use draco.Base.{ℕ, ◌<◌, ◌≡◌, some, arith}
use draco.Text.{Text, text_eq_iff}
use draco.Text.Assoc.{get, get-remove, get-insert}
use draco.Operations.{
  Registry, empty_registry, register_operation, finish_operation, drop_receiver, send,
}

-- The steps that tasks take on the registry, in any order.
pub data Step (r : Registry) : Registry → Type 0 where
  registers : (id : Text) → Step r (register_operation id r).1
  finishes : (id : Text) → Step r (finish_operation id r)
  drops : (channel : ℕ) → Step r (drop_receiver channel r)
  sends : (channel : ℕ) → Step r (send channel r).1

pub data Steps (r : Registry) : Registry → Type 0 where
  stop : Steps r r
  next : {s t : Registry} → Steps r s → Step s t → Steps r t

pub record IsSeparate (r : Registry) : Type 0 where
  pub opened : (id : Text) (c : ℕ) → get id r.operations ≡ some c → c < r.next_channel
  pub own : (i j : Text) (c : ℕ) → get i r.operations ≡ some c → get j r.operations ≡ some c → i ≡ j

register_operation-IsSeparate :
    (id : Text) (r : Registry) → IsSeparate r → IsSeparate (register_operation id r).1
unfolding register_operation
register_operation-IsSeparate id r h = record {
  opened = λ j c found. ground (arith, get-insert id j r.next_channel r.operations, h.opened j c);
  own = λ i j c fi fj. ground (
    arith,
    get-insert id i r.next_channel r.operations,
    get-insert id j r.next_channel r.operations,
    text_eq_iff id i,
    text_eq_iff id j,
    h.opened i c,
    h.opened j c,
    h.own i j c,
  );
}

finish_operation-IsSeparate :
    (id : Text) (r : Registry) → IsSeparate r → IsSeparate (finish_operation id r)
unfolding finish_operation
finish_operation-IsSeparate id r h = record {
  opened = λ j c found. ground (arith, get-remove id j r.operations, h.opened j c);
  own = λ i j c fi fj.
      ground (arith, get-remove id i r.operations, get-remove id j r.operations, h.own i j c);
}

send-keeps_map :
    (c : ℕ) (r : Registry)
    → ((send c r).1.operations ≡ r.operations) × ((send c r).1.next_channel ≡ r.next_channel)
unfolding send
send-keeps_map c r = ground arith

send-IsSeparate : (c : ℕ) (r : Registry) → IsSeparate r → IsSeparate (send c r).1
send-IsSeparate c r h =
    let (same, bound) = send-keeps_map c r in
    record { opened = rw (same, bound) h.opened; own = rw same h.own }

pub Step-IsSeparate : {r s : Registry} → Step r s → IsSeparate r → IsSeparate s
unfolding drop_receiver
Step-IsSeparate {r} (registers id) h = register_operation-IsSeparate id r h
Step-IsSeparate {r} (finishes id) h = finish_operation-IsSeparate id r h
Step-IsSeparate (drops c) h = record { opened = h.opened; own = h.own }
Step-IsSeparate {r} (sends c) h = send-IsSeparate c r h

pub Steps-IsSeparate : {r s : Registry} → Steps r s → IsSeparate r → IsSeparate s
Steps-IsSeparate stop h = h
Steps-IsSeparate (next st s) h = Step-IsSeparate s (Steps-IsSeparate st h)

pub empty_registry-IsSeparate : IsSeparate empty_registry
unfolding get
empty_registry-IsSeparate = record { opened = λ id c found. cc; own = λ i j c fi fj. cc }
