-- ===== src/Operations/Reuse.antt =====
-- Cancelling reaches the operation that was meant and no other.
use draco.Base.{is_some, is_empty, err, ok, ℕ, ◌≤◌, ◌≡◌, ap, ◌≢◌, true, false, ◌||◌, some, arith}
use draco.Text.{Text, text_eq, text_eq_iff, text_eq_refl, trim}
use draco.Text.Assoc.{get, get-remove, get-insert}
use draco.Error.{operation}
use draco.Operations.{
  Registry, empty_registry, register_operation, finish_operation, drop_receiver, send,
  cancel_operation,
}
use draco.Operations.Channels.{
  Step, registers, finishes, drops, sends, Steps, stop, next, Steps-IsSeparate,
  empty_registry-IsSeparate,
}

-- No step closes the gap below a channel number that was given out.
Step-next_channel : {r s : Registry} → Step r s → r.next_channel ≤ s.next_channel
unfolding register_operation finish_operation drop_receiver send
Step-next_channel (registers id) = ground arith
Step-next_channel (finishes id) = omega arith
Step-next_channel (drops c) = omega arith
Step-next_channel (sends c) = ground arith

Steps-next_channel : {r s : Registry} → Steps r s → r.next_channel ≤ s.next_channel
Steps-next_channel stop = omega arith
Steps-next_channel (next st s) = omega (arith, Steps-next_channel st, Step-next_channel s)

-- No step of a sequence finishes the operation.
abbrev pub SparesStep : {r s : Registry} → Text → Step r s → Type 0
SparesStep id (registers other_id) = Unit
SparesStep id (finishes other_id) = text_eq other_id id ≡ false
SparesStep id (drops channel) = Unit
SparesStep id (sends channel) = Unit

abbrev pub Spares : {r s : Registry} → Text → Steps r s → Type 0
Spares id stop = Unit
Spares id (next st s) = Spares id st × SparesStep id s

Step-keeps :
    {r s : Registry} (id : Text) (c : ℕ) (st : Step r s)
    → SparesStep id st
    → get id r.operations ≡ some c
    → get id s.operations ≡ some c
unfolding register_operation finish_operation drop_receiver send
Step-keeps {r} id c (registers other_id) spared h =
    ground (arith, get-insert other_id id r.next_channel r.operations, text_eq_iff other_id id)
Step-keeps {r} id c (finishes other_id) spared h =
    ground (arith, get-remove other_id id r.operations, spared)
Step-keeps id c (drops channel) spared h = h
Step-keeps id c (sends channel) spared h = ground arith

Steps-keeps :
    {r s : Registry} (id : Text) (c : ℕ) (st : Steps r s)
    → Spares id st
    → get id r.operations ≡ some c
    → get id s.operations ≡ some c
Steps-keeps id c stop spared h = h
Steps-keeps id c (next st s) spared h = Step-keeps id c s spared.1 (Steps-keeps id c st spared.0 h)

refused_while_taken :
    (id : Text) (r : Registry)
    → is_empty (trim id) ≡ false
    → is_some (get id r.operations) ≡ true
    → ((register_operation id r).0 ≡ err (operation "Operation id is already in use"))
      × ((register_operation id (finish_operation id r)).0 ≡ ok r.next_channel)
unfolding register_operation finish_operation
refused_while_taken id r filled taken =
    ground (arith, get-remove id id r.operations, text_eq_refl id)

opened_parts :
    (id' : Text) (r' : Registry) (c' : ℕ)
    → (register_operation id' r').0 ≡ ok c'
    → (is_empty (trim id') ≡ false) × (get id' (register_operation id' r').1.operations ≡ some c')
unfolding register_operation
opened_parts id' r' c' h =
    ground (arith, get-insert id' id' r'.next_channel r'.operations, text_eq_refl id')

-- An id that was registered stays taken, whatever steps follow, until one of them finishes it: it
-- keeps its channel and is refused to another operation. Once it is finished, it is given again.
pub register_again :
    (id : Text) (r s : Registry) (c : ℕ) (st : Steps (register_operation id r).1 s)
    → (register_operation id r).0 ≡ ok c
    → Spares id st
    → (get id s.operations ≡ some c)
      × ((register_operation id s).0 ≡ err (operation "Operation id is already in use"))
      × ((register_operation id (finish_operation id s)).0 ≡ ok s.next_channel)
register_again id r s c st opened spared =
    let (filled, there) = opened_parts id r c opened in
    let still = Steps-keeps id c st spared there in
    let (refused, given) = refused_while_taken id s filled (ap is_some still) in
    (still, refused, given)

-- Cancelling one operation sets the flag of that operation, if its task still listens, and leaves
-- the flag of every other operation alone.
pub cancel_directed :
    (id another : Text) (r : Registry) (c d : ℕ)
    → Steps empty_registry r
    → get id r.operations ≡ some c
    → get another r.operations ≡ some d
    → id ≢ another
    → ((cancel_operation id r).1.cancelled d ≡ r.cancelled d)
      × ((cancel_operation id r).1.cancelled c ≡ (r.has_receiver c || r.cancelled c))
unfolding cancel_operation
cancel_directed id another r c d st fc fd ne =
    let sep = Steps-IsSeparate st empty_registry-IsSeparate in ground (arith, sep.own id another c)

-- A cancel that took its sender before the operation ended never reaches a later operation, even
-- one that is registered under the same id: whatever steps lie between, the sender's channel is
-- not the channel of the new operation.
pub cancel_never_reaches_reuse :
    (id : Text) (before r : Registry) (c d : ℕ)
    → Steps empty_registry before
    → get id before.operations ≡ some c
    → Steps before r
    → (register_operation id r).0 ≡ ok d
    → (send c (register_operation id r).1).1.cancelled d ≡ false
unfolding register_operation send
cancel_never_reaches_reuse id before r c d st found later new =
    let sep = Steps-IsSeparate st empty_registry-IsSeparate in
    ground (arith, sep.opened id c found, Steps-next_channel later)
