-- ===== src/Api/Release.antt =====
-- `ReleaseReservation`, `ReleaseByDecayToken` and `KeepByDecayToken` of internal/api/reservations.go.
pub mod Roundtrip
use yaadegar.Base.{String, Bool, true, false, not, ◌==◌, Option, if◌then◌else◌}
use yaadegar.Storage.{Result, ok, err, Reservation, ReservationState}
use yaadegar.Sqlstore.Db.{Db}
use yaadegar.Sqlstore.Reservations
use yaadegar.World.{World}
use yaadegar.Api.{Runtime, Reply, Handler, with_tenant, on_not_found}

-- The reply to a delete.
abbrev pub after_delete : World → Result (Unit {0} × Db) → Reply × World
after_delete w (err e) = (on_not_found 404 "reservation not found" e, w)
after_delete w (ok (_, db)) = (Reply.no_content, record w { db = db })

unfoldable pub delete_row : String → String → Handler
delete_row tenant id w = after_delete w (Reservations.delete tenant id w.db)

release_found : String → String → Result Reservation → Handler
unfolding delete_row
release_found tenant id (err e) w = (on_not_found 401 "invalid capability token" e, w)
release_found tenant id (ok res) w =
    if not (res.id == id)
    then (Reply.problem 404 "reservation not found", w)
    else delete_row tenant res.id w

unfoldable pub release_reservation : Runtime → Option String → String → String → Handler
unfolding release_found
release_reservation rt ctx id raw = with_tenant ctx (λ tenant w.
    if raw == ""
    then (Reply.problem 401 "missing capability token", w)
    else release_found tenant id (Reservations.by_token_hash tenant (rt.hash raw) w.db) w)

abbrev pub already_expired : Reply
already_expired = Reply.problem 410 "this reservation has already expired"

decay_release_found : String → Result Reservation → Handler
unfolding delete_row
decay_release_found tenant (err e) w = (on_not_found 404 "invalid release token" e, w)
decay_release_found tenant (ok res) w = elim res.state [
  | ReservationState.expired ↦ (already_expired, w)
  | _ ↦ delete_row tenant res.id w
]

unfoldable pub release_by_decay_token : Runtime → Option String → String → Handler
unfolding decay_release_found
release_by_decay_token rt ctx tok = with_tenant ctx (λ tenant w.
    if tok == ""
    then (Reply.problem 404 "invalid release token", w)
    else decay_release_found tenant
        (Reservations.by_decay_release_token_hash tenant (rt.hash tok) w.db) w)

after_renew : World → Result (Bool × Db) → Reply × World
after_renew w (err e) = (Reply.failed e, w)
after_renew w (ok (false, db)) =
    (Reply.problem 410 "this link is no longer valid", record w { db = db })
after_renew w (ok (true, db)) = (Reply.no_content, record w { db = db })

decay_keep_found : Runtime → String → Result Reservation → Handler
unfolding after_renew
decay_keep_found rt tenant (err e) w = (on_not_found 404 "invalid keep token" e, w)
decay_keep_found rt tenant (ok res) w = elim res.state [
  | ReservationState.expired ↦ (already_expired, w)
  | _ ↦ after_renew w (Reservations.renew tenant res.id rt.now w.db)
]

unfoldable pub keep_by_decay_token : Runtime → Option String → String → Handler
unfolding decay_keep_found
keep_by_decay_token rt ctx tok = with_tenant ctx (λ tenant w.
    if tok == ""
    then (Reply.problem 404 "invalid keep token", w)
    else decay_keep_found rt tenant
        (Reservations.by_decay_keep_token_hash tenant (rt.hash tok) w.db) w)
