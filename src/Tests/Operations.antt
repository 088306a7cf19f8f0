-- ===== src/Tests/Operations.antt =====
-- Two operations that run at the same time, and an id that is used twice.
use draco.Base.{err, ok, ◌≡◌, refl, ◌≢◌, false, ◌||◌, some, arith}
use draco.Text.{codes, text_eq, is_whitespace, trim}
use draco.Text.Assoc.{get, remove, insert}
use draco.Error.{operation}
use draco.Operations.{
  Registry, empty_registry, register_operation, finish_operation, send, cancel_operation,
}
use draco.Operations.Channels.{registers, finishes, Steps, stop, next}
use draco.Operations.Reuse.{register_again, cancel_directed, cancel_never_reaches_reuse}

abbrev first : Registry
first = (register_operation (codes "q") empty_registry).1

abbrev both : Registry
both = (register_operation (codes "r") first).1

abbrev ended : Registry
ended = finish_operation (codes "q") first

first-Steps : Steps empty_registry first
first-Steps = next stop (registers (codes "q"))

both-Steps : Steps empty_registry both
both-Steps = next first-Steps (registers (codes "r"))

ended-Steps : Steps first ended
ended-Steps = next stop (finishes (codes "q"))

get-first : get (codes "q") first.operations ≡ some 0
unfolding register_operation get insert remove text_eq trim is_whitespace
get-first = refl

get-both : (get (codes "q") both.operations ≡ some 0) × (get (codes "r") both.operations ≡ some 1)
unfolding register_operation get insert remove text_eq trim is_whitespace
get-both = (refl, refl)

q≢r : codes "q" ≢ codes "r"
q≢r h = ground arith

register-ended : (register_operation (codes "q") ended).0 ≡ ok 1
unfolding register_operation finish_operation get insert remove text_eq trim is_whitespace
register-ended = refl

register-first : (register_operation (codes "q") empty_registry).0 ≡ ok 0
unfolding register_operation get trim is_whitespace
register-first = refl

register_again_example :
    (get (codes "q") both.operations ≡ some 0)
    × ((register_operation (codes "q") both).0 ≡ err (operation "Operation id is already in use"))
    × ((register_operation (codes "q") (finish_operation (codes "q") both)).0
        ≡ ok both.next_channel)
register_again_example =
    register_again (codes "q") empty_registry both 0 (next stop (registers (codes "r")))
      register-first (tt, tt)

cancel_directed_example :
    ((cancel_operation (codes "q") both).1.cancelled 1 ≡ both.cancelled 1)
    × ((cancel_operation (codes "q") both).1.cancelled 0
        ≡ (both.has_receiver 0 || both.cancelled 0))
cancel_directed_example =
    cancel_directed (codes "q") (codes "r") both 0 1 both-Steps get-both.0 get-both.1 q≢r

cancel_never_reaches_reuse_example :
    (send 0 (register_operation (codes "q") ended).1).1.cancelled 1 ≡ false
cancel_never_reaches_reuse_example =
    cancel_never_reaches_reuse (codes "q") first ended 0 1 first-Steps get-first ended-Steps
      register-ended
