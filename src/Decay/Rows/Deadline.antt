-- ===== src/Decay/Rows/Deadline.antt =====
-- What a pass does to a provisional hold, against the deadline that `confirmDeadline` of
-- internal/api/reservations.go told its giver.
use yaadegar.Base.{◌≡◌, refl, Bool, arith, List, [], none, some, true, if◌then◌else◌}
use yaadegar.Base.Int64.{IsInt64}
use yaadegar.Base.Table.{select_row}
use yaadegar.Storage.{GiftList, Item, Reservation, ReservationState, DecayCandidate}
use yaadegar.Sqlstore.Db.{item_row}
use yaadegar.Sqlstore.Reservations.{set_expired}
use yaadegar.Decay.{
  Config, Env, confirm_waits, list_row, candidate, join_item, join_list, candidate_on,
}
use yaadegar.Decay.Rows.{swept, swept_as, swept_in}
use yaadegar.Api.{Server}
use yaadegar.Api.Deadline.{confirm_deadline}
use yaadegar.Api.Deadline.Enforced.{waits_until, enforced_waits}

-- What the query selects of a row.
abbrev described : Reservation → Item → GiftList → DecayCandidate
described r it l = record {
  tenant_id = r.tenant_id;
  reservation_id = r.id;
  item_id = r.item_id;
  item_name = it.name;
  giver_email = r.giver_email;
  state = r.state;
  last_activity_at = r.last_activity_at;
  state_at = r.state_at;
  decay_days = l.decay_days;
  reserver_confirm_window_minutes = l.reserver_confirm_window_minutes;
}

candidate-described :
    (lists : List GiftList) (items : List Item) (r : Reservation) (it : Item) (l : GiftList)
    → r.state ≡ ReservationState.pending_confirmation
    → select_row (item_row r.tenant_id r.item_id) items ≡ some it
    → it.archived_at ≡ none
    → select_row (list_row r.tenant_id it.list_id) lists ≡ some l
    → l.is_active ≡ true
    → candidate lists items r ≡ some (described r it l)
unfolding candidate join_item join_list candidate_on
candidate-described lists items r it l pending found kept on_list is_on = ground arith

swept-described :
    (cfg : Config) (env : Env) (lists : List GiftList) (items : List Item)
    → (r : Reservation) (c : DecayCandidate) (waits : Bool) → candidate lists items r ≡ some c
    → c.state ≡ ReservationState.pending_confirmation
    → confirm_waits cfg env.now c ≡ waits
    → swept cfg env lists items r ≡ (if waits then (r, []) else (set_expired env.now r, []))
unfolding swept swept_as swept_in
swept-described cfg env lists items r c waits found pending e = ground arith

-- The deadline that a giver is told is the one that the sweep enforces, given that the handlers and
-- the sweep are configured with the same window: a provisional hold on an item that is not archived,
-- on an active list, rests in a pass before its deadline, is freed by a pass at its deadline or later,
-- and rests in every pass if it has none.
pub swept-confirm_deadline :
    (s : Server) (cfg : Config) (env : Env) (lists : List GiftList) (items : List Item)
    → (r : Reservation) (it : Item) (l : GiftList) → s.reserver_confirm_window ≡ cfg.confirm_window
    → IsInt64 cfg.confirm_window
    → r.state ≡ ReservationState.pending_confirmation
    → select_row (item_row r.tenant_id r.item_id) items ≡ some it
    → it.archived_at ≡ none
    → select_row (list_row r.tenant_id it.list_id) lists ≡ some l
    → l.is_active ≡ true
    → swept cfg env lists items r ≡ (
        if waits_until env.now (confirm_deadline s l r)
        then (r, [])
        else (set_expired env.now r, []))
swept-confirm_deadline s cfg env lists items r it l same fits pending found kept on_list is_on =
    let c = described r it l in
    swept-described cfg env lists items r c _
      (candidate-described lists items r it l pending found kept on_list is_on) pending
      (enforced_waits s l r cfg c env.now same fits refl refl)
