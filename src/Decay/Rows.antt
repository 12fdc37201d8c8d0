-- ===== src/Decay/Rows.antt =====
-- The sweep of internal/decay/decay.go seen from one reservation. `swept` says what a pass makes of a
-- row on its own; Sweep relates it to the sweep with its query and transactions.
mod Steps
pub mod Sweep
pub mod Outcomes
pub mod Archived
pub mod Idempotent
pub mod Deadline
use yaadegar.Base.{
  String, Bool, true, false, ◌&&◌, ◌==◌, ◌≡◌, refl, sym, ◌∙◌, ap, List, [], ◌∷◌, ◌++◌, Option, none,
  some, map, arith, if◌then◌else◌, inl, inr, Option-cases, Bool-cases,
}
use mathlib.Core.List.{append-nil}
use yaadegar.Base.Table.{All, select_row, update_where}
use yaadegar.Storage.{
  Result, ok, err, GiftList, Item, Reservation, DecayCandidate, ReservationState,
}
use yaadegar.Email.{Message}
use yaadegar.Sqlstore.Db.{Db}
use yaadegar.Sqlstore.Reservations.{
  row, transition_state, set_expired, set_notified, mark_expired, mark_reserver_notified,
  expire_pending,
}
use yaadegar.Sqlstore.Reservations.Moves.{
  Fresh, moved, left, with_rows, transition-head, transition-tail,
}
use yaadegar.World.{World}
use yaadegar.Decay.{
  Config, Env, candidate, candidates, cons_some, candidate_on, join_list, join_item, confirm_waits,
  decay_waits, response_waits, notify_reserver, apply_move, advance, remind, step_in, step, steps,
  sweep,
}

-- What becomes of a row, and the messages that go out for it.
abbrev pub Outcome : Type 0
Outcome = Reservation × List Message

-- The row is moved if its message was accepted.
pub notified : Env → Reservation → String → String → Option Message → Outcome
notified env r keep_hash release_hash none = (r, [])
notified env r keep_hash release_hash (some m) =
    (set_notified env.now keep_hash release_hash r, m ∷ [])

pub reminded :
    Config
    → Env
    → DecayCandidate
    → Option (String × String)
    → Option (String × String)
    → Reservation
    → Outcome
unfolding notified
reminded cfg env c none release r = (r, [])
reminded cfg env c (some keep) none r = (r, [])
reminded cfg env c (some (keep_raw, keep_hash)) (some (release_raw, release_hash)) r =
    notified env r keep_hash release_hash (notify_reserver cfg env c keep_raw release_raw)

pub swept_in : ReservationState → Config → Env → DecayCandidate → Reservation → Outcome
unfolding reminded
swept_in ReservationState.pending_confirmation cfg env c r =
    if confirm_waits cfg env.now c then (r, []) else (set_expired env.now r, [])
swept_in ReservationState.active cfg env c r =
    if decay_waits cfg env.now c
    then (r, [])
    else reminded cfg env c (env.keep_token c.reservation_id) (env.release_token c.reservation_id) r
swept_in ReservationState.reserver_notified cfg env c r =
    if response_waits cfg env.now c then (r, []) else (set_expired env.now r, [])
swept_in _ cfg env c r = (r, [])

pub swept_as : Config → Env → Reservation → Option DecayCandidate → Outcome
unfolding swept_in
swept_as cfg env r none = (r, [])
swept_as cfg env r (some c) = swept_in c.state cfg env c r

-- A pass over one row: nothing if the query does not select it.
unfoldable pub swept : Config → Env → List GiftList → List Item → Reservation → Outcome
unfolding swept_as
swept cfg env lists items r = swept_as cfg env r (candidate lists items r)

-- The key of a candidate is that of its row, and so is the state.
abbrev Describes : Option DecayCandidate → Reservation → Type 0
Describes none r = Unit {0}
Describes (some c) r = (c.tenant_id ≡ r.tenant_id) × (c.reservation_id ≡ r.id) × (c.state ≡ r.state)

candidate-Describes :
    (lists : List GiftList) (items : List Item) (r : Reservation)
    → Describes (candidate lists items r) r
unfolding candidate join_item join_list candidate_on
candidate-Describes lists items r = ground (
  arith,
  Option-cases (select_row (λ it. it.tenant_id == r.tenant_id && it.id == r.item_id) items),
)
