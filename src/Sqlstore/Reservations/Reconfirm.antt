-- ===== src/Sqlstore/Reservations/Reconfirm.antt =====
-- `ByConfirmTokenHash` after `ConfirmReservation` of reservations.go.
use yaadegar.Base.{String, Bool, true, ◌&&◌, ◌==◌, ◌≡◌, refl, some, arith, Option-cases}
use yaadegar.Base.Table.{select_row, update_where}
use yaadegar.Base.Table.Count.{select_row-update, select_row-holds}
use yaadegar.Storage.{ok, Time, Reservation}
use yaadegar.Sqlstore.Db.{Db}
use yaadegar.Sqlstore.Reservations.{
  row, set_confirmed, transition_state, move_if, confirm_reservation, by_confirm_token_hash, get_by,
}

moved_rows :
    (tenant id hash : String) (at : Time) (db db' : Db)
    → confirm_reservation tenant id hash at db ≡ ok (true, db')
    → db'.reservations ≡ update_where (row tenant id) (set_confirmed at hash) db.reservations
unfolding confirm_reservation transition_state move_if
moved_rows tenant id hash at db db' h =
    ground (arith, Option-cases (select_row (row tenant id) db.reservations))

-- The confirmation token still finds its reservation once this is confirmed.
pub by_confirm_token_hash-confirm_reservation :
    (tenant token_hash hash : String) (at : Time) (db db' : Db) (r : Reservation)
    → by_confirm_token_hash tenant token_hash db ≡ ok r
    → confirm_reservation tenant r.id hash at db ≡ ok (true, db')
    → by_confirm_token_hash tenant token_hash db' ≡ ok (set_confirmed at hash r)
unfolding by_confirm_token_hash get_by
by_confirm_token_hash-confirm_reservation tenant token_hash hash at db db' r found moved =
    let is_it : Reservation → Bool =
      λ x. x.tenant_id == tenant && x.confirm_token_hash == token_hash in
    let rows = moved_rows tenant r.id hash at db db' moved in
    let first : select_row is_it db.reservations ≡ some r = ground arith in
    let holds = select_row-holds is_it db.reservations r first in
    let own : row tenant r.id r ≡ true = ground arith in
    let second =
      select_row-update is_it (row tenant r.id) (set_confirmed at hash) db.reservations r
        (λ y. refl) first in
    rw (rows, second, own) (ground arith)
