-- ===== src/Sqlstore/Reservations.antt =====
-- internal/storage/sqlstore/reservations.go and decay.go: the reservations of one tenant.
-- `tenant` is the repository's bound tenant, `now` the store's clock, `new_id` the id that
-- `uuid.NewString` would mint.
pub mod Moves
pub mod Lifecycle
pub mod Undo
pub mod Reconfirm
use yaadegar.Base.{
  String, Bool, true, false, ◌&&◌, ◌||◌, ◌==◌, List, ◌∷◌, some, map, if◌then◌else◌, ltb, zero,
  is_some,
}
use yaadegar.Base.Int.{ℤ, pos, ltb_ℤ}
use yaadegar.Base.Int64.{add64}
use yaadegar.Base.Table.{select_where, select_row, count_where, update_where, delete_where}
use yaadegar.Storage.{
  Result, ok, err, ◌>>=◌, ◌>>◌, refuse, or_not_found, not_found, conflict, capacity_exceeded,
  cross_track_conflict, Time, is_zero_time, Reservation, Contribution, ReservationState,
  ReservationState-discrete, is_live, is_open,
}
use yaadegar.Sqlstore.Db.{Db, Op, expect_one, sum, scan_int64, with_item_lock}

-- `prep` fills the server-set defaults and binds the tenant.
default_state : ReservationState → ReservationState
default_state ReservationState.unset = ReservationState.active
default_state s = s

unfoldable pub prep : String → String → Time → Reservation → Reservation
unfolding default_state
prep tenant new_id now res =
    let created = if is_zero_time res.created_at then now else res.created_at in
    record res {
      id = if res.id == "" then new_id else res.id;
      quantity = if ltb_ℤ res.quantity (pos 1) then pos 1 else res.quantity;
      created_at = created;
      last_activity_at =
          if is_zero_time res.last_activity_at then created else res.last_activity_at;
      state = default_state res.state;
      state_at = if is_zero_time res.state_at then created else res.state_at;
      tenant_id = tenant;
    }

-- PRIMARY KEY (id), UNIQUE (tenant_id, token_hash).
abbrev pub clashes : Reservation → Reservation → Bool
clashes res r = r.id == res.id || r.tenant_id == res.tenant_id && r.token_hash == res.token_hash

-- `insert`, with a unique violation reported as ErrConflict by both callers. The 32 bits of a quantity
-- in PostgreSQL are not modelled.
unfoldable pub insert : Reservation → Op Reservation
insert res db = do
  refuse (is_some (select_row (clashes res) db.reservations)) conflict
  ok (res, record db { reservations = res ∷ db.reservations })

unfoldable pub create : String → String → Time → Reservation → Op Reservation
unfolding insert prep
create tenant new_id now res db = insert (prep tenant new_id now res) db

-- The rows that the two aggregates of `CreateWithinCapacity` range over.
abbrev pub open_on : String → String → Contribution → Bool
open_on tenant item_id c = c.tenant_id == tenant && c.item_id == item_id && is_open c.status

abbrev pub live_on : String → String → Reservation → Bool
live_on tenant item_id r = r.tenant_id == tenant && r.item_id == item_id && is_live r.state

abbrev pub quantities : List Reservation → List ℤ
quantities = map (λ r. r.quantity)

unfoldable pub create_checked : String → Reservation → ℤ → Op Reservation
unfolding insert
create_checked tenant res wanted_qty db = do
  let cobuy = count_where (open_on tenant res.item_id) db.contributions
  refuse (ltb zero cobuy) cross_track_conflict
  total ← scan_int64 (sum (quantities (select_where (live_on tenant res.item_id) db.reservations)))
  refuse (ltb_ℤ wanted_qty (add64 total res.quantity)) capacity_exceeded
  insert res db

unfoldable pub create_within_capacity : String → String → Time → Reservation → ℤ → Op Reservation
unfolding prep create_checked
create_within_capacity tenant new_id now res wanted_qty db =
    let res' = prep tenant new_id now res in
    with_item_lock tenant res'.item_id (create_checked tenant res' wanted_qty) db

-- `get`, with the condition that its callers append to `tenant_id = ?`.
unfoldable pub get_by : String → (Reservation → Bool) → Db → Result Reservation
get_by tenant cond db =
    or_not_found (select_row (λ r. r.tenant_id == tenant && cond r) db.reservations)

unfoldable pub get : String → String → Db → Result Reservation
unfolding get_by
get tenant id db = get_by tenant (λ r. r.id == id) db

unfoldable pub by_token_hash : String → String → Db → Result Reservation
unfolding get_by
by_token_hash tenant hash db = get_by tenant (λ r. r.token_hash == hash) db

-- `ORDER BY created_at, id` is not modelled: the rows come in the order of the table.
unfoldable pub list_by_item : String → String → Db → Result (List Reservation)
list_by_item tenant item db =
    ok (select_where (λ r. r.tenant_id == tenant && r.item_id == item) db.reservations)

-- An empty hash never matches.
unfoldable pub by_decay_release_token_hash : String → String → Db → Result Reservation
unfolding get_by
by_decay_release_token_hash tenant hash db =
    if hash == "" then err not_found else get_by tenant (λ r. r.decay_release_token_hash == hash) db

unfoldable pub by_decay_keep_token_hash : String → String → Db → Result Reservation
unfolding get_by
by_decay_keep_token_hash tenant hash db =
    if hash == "" then err not_found else get_by tenant (λ r. r.decay_keep_token_hash == hash) db

unfoldable pub by_confirm_token_hash : String → String → Db → Result Reservation
unfolding get_by
by_confirm_token_hash tenant hash db =
    if hash == "" then err not_found else get_by tenant (λ r. r.confirm_token_hash == hash) db

abbrev pub row : String → String → Reservation → Bool
row tenant id r = r.tenant_id == tenant && r.id == id

unfoldable pub delete : String → String → Op (Unit {0})
delete tenant id db = do
  expect_one (count_where (row tenant id) db.reservations)
  ok (tt, record db { reservations = delete_where (row tenant id) db.reservations })

-- The update of a transition is made only if the locked row is still in the state `from`.
move_if : Bool → String → String → (Reservation → Reservation) → Op Bool
move_if true tenant id update db =
    ok (true, record db { reservations = update_where (row tenant id) update db.reservations })
move_if false tenant id update db = ok (false, db)

unfoldable pub transition_state :
    String → String → ReservationState → (Reservation → Reservation) → Op Bool
unfolding move_if
transition_state tenant id from update db = do
  current ← or_not_found (select_row (row tenant id) db.reservations)
  move_if (elim (ReservationState-discrete current.state from) [ yes _ ↦ true | no _ ↦ false ])
      tenant id update db

-- The `UPDATE … SET` of the six transitions.
abbrev pub set_notified : Time → String → String → Reservation → Reservation
set_notified at keep_hash release_hash r = record r {
  state = ReservationState.reserver_notified;
  state_at = at;
  decay_keep_token_hash = keep_hash;
  decay_release_token_hash = release_hash;
}

abbrev pub set_expired : Time → Reservation → Reservation
set_expired at r = record r { state = ReservationState.expired; state_at = at }

abbrev pub set_confirmed : Time → String → Reservation → Reservation
set_confirmed at hash r = record r {
  state = ReservationState.active;
  state_at = at;
  last_activity_at = at;
  token_hash = hash;
  email_confirmed_at = some at;
}

abbrev pub set_renewed : Time → Reservation → Reservation
set_renewed at r = record r {
  state = ReservationState.active;
  state_at = at;
  last_activity_at = at;
  decay_keep_token_hash = "";
  decay_release_token_hash = "";
}

unfoldable pub mark_reserver_notified : String → String → Time → String → String → Op Bool
unfolding transition_state
mark_reserver_notified tenant id at keep_hash release_hash =
    transition_state tenant id ReservationState.active (set_notified at keep_hash release_hash)

unfoldable pub mark_expired : String → String → Time → Op Bool
unfolding transition_state
mark_expired tenant id at =
    transition_state tenant id ReservationState.reserver_notified (set_expired at)

unfoldable pub expire_pending : String → String → Time → Op Bool
unfolding transition_state
expire_pending tenant id at =
    transition_state tenant id ReservationState.pending_confirmation (set_expired at)

unfoldable pub confirm_reservation : String → String → String → Time → Op Bool
unfolding transition_state
confirm_reservation tenant id hash at =
    transition_state tenant id ReservationState.pending_confirmation (set_confirmed at hash)

unfoldable pub renew : String → String → Time → Op Bool
unfolding transition_state
renew tenant id at = transition_state tenant id ReservationState.reserver_notified (set_renewed at)
