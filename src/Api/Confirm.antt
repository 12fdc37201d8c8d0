-- ===== src/Api/Confirm.antt =====
-- `ConfirmReservation` and `confirmRaced` of internal/api/reservations.go: the link that turns a
-- provisional hold into a reservation.
pub mod Once
use yaadegar.Base.{String, Bool, true, false, ◌==◌, Option, none, some, if◌then◌else◌}
use yaadegar.Storage.{Result, ok, err, other, Reservation, ReservationState}
use yaadegar.Sqlstore.Db.{Db}
use yaadegar.Sqlstore.Reservations
use yaadegar.World.{World}
use yaadegar.Api.{Runtime, Reply, Handler, with_tenant, on_not_found}
use yaadegar.Api.ThankYou.{send_thank_you}

abbrev pub window_passed : Reply
window_passed = Reply.problem 410 "this reservation's confirmation window has passed"

raced : Result Reservation → Reply
raced (err e) = on_not_found 404 "invalid confirmation token" e
raced (ok res) = elim res.state [
  | ReservationState.active ↦ Reply.confirmed res.id none
  | _ ↦ window_passed
]

unfoldable pub confirm_raced : String → String → Handler
unfolding raced
confirm_raced tenant id w = (raced (Reservations.get tenant id w.db), w)

after_confirm : Runtime → String → Reservation → String → World → Result (Bool × Db) → Reply × World
unfolding confirm_raced
after_confirm rt tenant res raw w (err e) = (Reply.failed e, w)
after_confirm rt tenant res raw w (ok (true, db)) =
    (Reply.confirmed res.id (some raw), send_thank_you rt tenant res (record w { db = db }))
after_confirm rt tenant res raw w (ok (false, db)) =
    confirm_raced tenant res.id (record w { db = db })

confirm_with : Runtime → String → Reservation → Option (String × String) → Handler
unfolding after_confirm
confirm_with rt tenant res none w = (Reply.failed other, w)
confirm_with rt tenant res (some (raw, hash)) w =
    after_confirm rt tenant res raw w
      (Reservations.confirm_reservation tenant res.id hash rt.now w.db)

confirm_in : ReservationState → Runtime → String → Reservation → Handler
unfolding confirm_with
confirm_in ReservationState.expired rt tenant res w = (window_passed, w)
confirm_in ReservationState.pending_confirmation rt tenant res w =
    confirm_with rt tenant res rt.new_token w
confirm_in _ rt tenant res w = (Reply.confirmed res.id none, w)

confirm_found : Runtime → String → Result Reservation → Handler
unfolding confirm_in
confirm_found rt tenant (err e) w = (on_not_found 404 "invalid confirmation token" e, w)
confirm_found rt tenant (ok res) w = confirm_in res.state rt tenant res w

-- The token of the body is "" where there is no body.
unfoldable pub confirm_reservation : Runtime → Option String → String → Handler
unfolding confirm_found
confirm_reservation rt ctx tok = with_tenant ctx (λ tenant w.
    if tok == ""
    then (Reply.problem 404 "invalid confirmation token", w)
    else confirm_found rt tenant (Reservations.by_confirm_token_hash tenant (rt.hash tok) w.db) w)
