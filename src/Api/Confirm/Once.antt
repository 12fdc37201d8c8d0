-- ===== src/Api/Confirm/Once.antt =====
-- `ConfirmReservation` of internal/api/reservations.go, called twice with one link.
use yaadegar.Base.{
  String, Bool, true, false, ◌==◌, ◌≡◌, refl, Option, none, some, arith, Bool-cases, inl, inr,
}
use yaadegar.Storage.{Result, ok, err, Reservation, ReservationState}
use yaadegar.Sqlstore.Db.{Db}
use yaadegar.Sqlstore.Reservations
use yaadegar.Sqlstore.Reservations.{set_confirmed}
use yaadegar.Sqlstore.Reservations.Reconfirm.{by_confirm_token_hash-confirm_reservation}
use yaadegar.World.{World}
use yaadegar.Api.{Runtime, Reply}
use yaadegar.Api.ThankYou.{send_thank_you-db}
use yaadegar.Api.Confirm.{
  confirm_reservation, confirm_found, confirm_in, confirm_with, after_confirm, confirm_raced, raced,
}

-- The reply issues a token.
abbrev pub issues : Reply → Bool
issues (Reply.confirmed id (some raw)) = true
issues _ = false

-- Behind a token that was issued: the reservation that the link found was moved by this request.
record Moved (rt : Runtime) (tenant : String) (r : Reservation) (o : Reply × World) (w : World)
    : Type 0 where
  hash : String
  moved : Reservations.confirm_reservation tenant r.id hash rt.now w.db ≡ ok (true, o.1.db)

raced-issues : (res : Result Reservation) → issues (raced res) ≡ false
unfolding raced
raced-issues (err e) = ground arith
raced-issues (ok r) = ground arith

after_confirm-Moved :
    (rt : Runtime) (tenant : String) (r : Reservation) (raw hash : String) (w : World)
    → (res : Result (Bool × Db))
    → Reservations.confirm_reservation tenant r.id hash rt.now w.db ≡ res
    → issues (after_confirm rt tenant r raw w res).0 ≡ true
    → Moved rt tenant r (after_confirm rt tenant r raw w res) w
unfolding after_confirm confirm_raced
after_confirm-Moved rt tenant r raw hash w (err e) step h = absurd (ground arith)
after_confirm-Moved rt tenant r raw hash w (ok (true, db)) step h = record {
  hash = hash;
  moved = rw (send_thank_you-db rt tenant r (record w { db = db })) step;
}
after_confirm-Moved rt tenant r raw hash w (ok (false, db)) step h =
    let no = raced-issues (Reservations.get tenant r.id db) in absurd (ground arith)

confirm_with-Moved :
    (rt : Runtime) (tenant : String) (r : Reservation) (tok : Option (String × String)) (w : World)
    → issues (confirm_with rt tenant r tok w).0 ≡ true
    → Moved rt tenant r (confirm_with rt tenant r tok w) w
unfolding confirm_with
confirm_with-Moved rt tenant r none w h = absurd (ground arith)
confirm_with-Moved rt tenant r (some (raw, hash)) w h =
    after_confirm-Moved rt tenant r raw hash w _ refl h

confirm_in-Moved :
    (s : ReservationState) (rt : Runtime) (tenant : String) (r : Reservation) (w : World)
    → issues (confirm_in s rt tenant r w).0 ≡ true
    → Moved rt tenant r (confirm_in s rt tenant r w) w
unfolding confirm_in
confirm_in-Moved ReservationState.unset rt tenant r w h = absurd (ground arith)
confirm_in-Moved ReservationState.expired rt tenant r w h = absurd (ground arith)
confirm_in-Moved ReservationState.active rt tenant r w h = absurd (ground arith)
confirm_in-Moved ReservationState.reserver_notified rt tenant r w h = absurd (ground arith)
confirm_in-Moved ReservationState.pending_confirmation rt tenant r w h =
    confirm_with-Moved rt tenant r rt.new_token w h

-- A second request once the first has moved the row that its link finds.
found_again :
    (rt rt2 : Runtime) (tenant token_hash : String) (w : World) (res : Result Reservation)
    → Reservations.by_confirm_token_hash tenant token_hash w.db ≡ res
    → issues (confirm_found rt tenant res w).0 ≡ true
    → let w' = (confirm_found rt tenant res w).1 in
      (r : Reservation) × (res ≡ ok r)
      × (confirm_found rt2 tenant (Reservations.by_confirm_token_hash tenant token_hash w'.db) w'
          ≡ (Reply.confirmed r.id none, w'))
unfolding confirm_found confirm_in
found_again rt rt2 tenant token_hash w (err e) found h = absurd (ground arith)
found_again rt rt2 tenant token_hash w (ok r) found h =
    let m = confirm_in-Moved r.state rt tenant r w h in
    let w' = (confirm_in r.state rt tenant r w).1 in
    let again =
      by_confirm_token_hash-confirm_reservation tenant token_hash m.hash rt.now w.db w'.db r found
        m.moved in
    (r, refl, rw again refl)

-- The link that confirmed a reservation issues no second token: when a request is answered with a
-- capability token, the same link is answered with the reservation and no token when it is used
-- again, whenever that is and whatever would be minted, and the second use changes nothing.
pub confirm_reservation-again :
    (rt rt2 : Runtime) (tenant tok : String) (w : World)
    → rt2.hash tok ≡ rt.hash tok
    → issues (confirm_reservation rt (some tenant) tok w).0 ≡ true
    → let w' = (confirm_reservation rt (some tenant) tok w).1 in
      (r : Reservation) × (Reservations.by_confirm_token_hash tenant (rt.hash tok) w.db ≡ ok r)
      × (confirm_reservation rt2 (some tenant) tok w' ≡ (Reply.confirmed r.id none, w'))
unfolding confirm_reservation
confirm_reservation-again rt rt2 tenant tok w same h = elim (Bool-cases (tok == "")) [
  | inl e ↦ let h' = rw e at h in absurd (ground arith)
  | inr e ↦ let h' = rw e at h in rw (e, same) (found_again rt rt2 tenant (rt.hash tok) w _ refl h')
]
