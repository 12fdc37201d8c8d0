-- ===== src/Sqlstore/Capacity.antt =====
-- The two guarded inserts, `CreateWithinCapacity` of reservations.go and contributions.go, and the
-- capacity of an item. The columns hold an int64, as in SQLite; the INTEGER columns of PostgreSQL hold
-- 32 bits, and a number beyond is refused as a failure of the database.
pub mod Pledges
use yaadegar.Base.{
  String, Bool, true, false, ◌&&◌, ◌==◌, ◌≡◌, refl, sym, ◌∙◌, ap, List, [], ◌∷◌, Option, none, some,
  map, arith, if◌then◌else◌, ltb, zero, ℕ, is_some, Bool-cases, inl, inr,
}
use yaadegar.Base.Int.{ℤ, pos, ◌+ℤ◌, ◌≤ℤ◌, ◌<ℤ◌, ltb_ℤ, int_laws, +ℤ_parts}
use yaadegar.Base.Int64.{
  IsInt64, max_int64, min_int64, add64, add64_exact, add64-le, add64_overflow,
}
use yaadegar.Base.Table.{select_row, select_where, count_where}
use yaadegar.Storage.{
  Result, ok, err, ◌>>=◌, ◌>>◌, not_found, conflict, capacity_exceeded, cross_track_conflict, Time,
  Reservation, Contribution, is_live, is_open,
}
use yaadegar.Sqlstore.Db.{Db, sum, scan_int64, with_item_lock, item_row}
use yaadegar.Sqlstore.Reservations
use yaadegar.Sqlstore.Reservations.{live_on, open_on, quantities}
use yaadegar.Sqlstore.Contributions
use yaadegar.Sqlstore.Contributions.{pledges}

-- What is held of an item by live reservations.
abbrev pub held : String → String → Db → ℤ
held tenant item db = sum (quantities (select_where (live_on tenant item) db.reservations))

reserve_checks :
    (tenant : String) (res r : Reservation) (wanted : ℤ) (db db' : Db)
    → Reservations.create_checked tenant res wanted db ≡ ok (r, db')
    → (r ≡ res)
      × (ltb_ℤ wanted (add64 (held tenant res.item_id db) res.quantity) ≡ false)
      × (db' ≡ record db { reservations = res ∷ db.reservations })
unfolding Reservations.create_checked Reservations.insert
reserve_checks tenant res r wanted db db' h = ground arith

pub reserve-checks :
    (tenant new_id : String) (now : Time) (res r : Reservation) (wanted : ℤ) (db db' : Db)
    → Reservations.create_within_capacity tenant new_id now res wanted db ≡ ok (r, db')
    → (r ≡ Reservations.prep tenant new_id now res)
      × (ltb_ℤ wanted (add64 (held tenant r.item_id db) r.quantity) ≡ false)
      × (db' ≡ record db { reservations = r ∷ db.reservations })
unfolding Reservations.create_within_capacity
reserve-checks tenant new_id now res r wanted db db' h =
    let res' = Reservations.prep tenant new_id now res in
    ground (arith, reserve_checks tenant res' r wanted db db')

-- The quantity that `prep` stores is at least one.
prep_quantity :
    (tenant new_id : String) (now : Time) (res : Reservation)
    → pos 1 ≤ℤ (Reservations.prep tenant new_id now res).quantity
unfolding Reservations.prep
prep_quantity tenant new_id now res = ground arith

held-insert :
    (tenant item : String) (r : Reservation) (db db' : Db)
    → db' ≡ record db { reservations = r ∷ db.reservations }
    → held tenant item db'
      ≡ (if live_on tenant item r then r.quantity +ℤ held tenant item db else held tenant item db)
unfolding select_where
held-insert tenant item r db db' e = rw e (ground arith)

-- A reservation that is admitted leaves no more held of its item than is wanted, provided that what
-- was held and what is asked for add up to an int64.
pub reserve-le-wanted :
    (tenant new_id : String) (now : Time) (res r : Reservation) (wanted : ℤ) (db db' : Db)
    → Reservations.create_within_capacity tenant new_id now res wanted db ≡ ok (r, db')
    → IsInt64 (held tenant r.item_id db +ℤ r.quantity)
    → held tenant r.item_id db' ≤ℤ wanted
reserve-le-wanted tenant new_id now res r wanted db db' h fits =
    let done = reserve-checks tenant new_id now res r wanted db db' h in
    let before = held tenant r.item_id db in
    let le = add64-le before r.quantity wanted fits done.1 in
    let one : pos 1 ≤ℤ r.quantity = rw done.0 (prep_quantity tenant new_id now res) in
    let after = held-insert tenant r.item_id r db db' done.2 in
    elim (Bool-cases (live_on tenant r.item_id r)) [
      | inl e ↦ rw (after, e) (omega (int_laws, le))
      | inr e ↦ rw (after, e) (omega (int_laws, le, one))
    ]

checked_admits :
    (tenant : String) (r : Reservation) (wanted : ℤ) (db : Db)
    → count_where (open_on tenant r.item_id) db.contributions ≡ 0
    → select_row (Reservations.clashes r) db.reservations ≡ none
    → IsInt64 (held tenant r.item_id db)
    → ltb_ℤ wanted (add64 (held tenant r.item_id db) r.quantity) ≡ false
    → Reservations.create_checked tenant r wanted db
      ≡ ok (r, record db { reservations = r ∷ db.reservations })
unfolding Reservations.create_checked Reservations.insert
checked_admits tenant r wanted db none_open fresh fits le = ground arith

locked_admits :
    (tenant new_id : String) (now : Time) (res : Reservation) (wanted : ℤ) (db : Db)
    → let r = Reservations.prep tenant new_id now res in
      is_some (select_row (item_row tenant r.item_id) db.items) ≡ true
      → Reservations.create_within_capacity tenant new_id now res wanted db
        ≡ Reservations.create_checked tenant r wanted db
unfolding Reservations.create_within_capacity
locked_admits tenant new_id now res wanted db found = rw found

-- A reservation is admitted whenever its item is there, no pledge is open on it, its id and token are
-- new, and what is held and what is asked for are together at most what is wanted: the row is added
-- and nothing else changes.
pub reserve_admits :
    (tenant new_id : String) (now : Time) (res : Reservation) (wanted : ℤ) (db : Db)
    → let r = Reservations.prep tenant new_id now res in
      is_some (select_row (item_row tenant r.item_id) db.items) ≡ true
      → count_where (open_on tenant r.item_id) db.contributions ≡ 0
      → select_row (Reservations.clashes r) db.reservations ≡ none
      → pos 0 ≤ℤ held tenant r.item_id db
      → held tenant r.item_id db +ℤ r.quantity ≤ℤ wanted
      → wanted ≤ℤ max_int64
      → Reservations.create_within_capacity tenant new_id now res wanted db
        ≡ ok (r, record db { reservations = r ∷ db.reservations })
reserve_admits tenant new_id now res wanted db found none_open fresh h0 le w1 =
    let r = Reservations.prep tenant new_id now res in
    let one = prep_quantity tenant new_id now res in
    let h = held tenant r.item_id db in
    let exact = add64_exact h r.quantity (omega (int_laws, one, +ℤ_parts h r.quantity)) in
    locked_admits tenant new_id now res wanted db found
    ∙ checked_admits tenant r wanted db none_open fresh
        (omega (int_laws, one, +ℤ_parts h r.quantity)) (rw exact (ground arith))

live_on_self :
    (tenant new_id : String) (now : Time) (res : Reservation)
    → let r = Reservations.prep tenant new_id now res in
      is_live r.state ≡ true → live_on tenant r.item_id r ≡ true
unfolding Reservations.prep
live_on_self tenant new_id now res live = ground arith

-- Where they do not add up to an int64 the sum wraps around to a negative number, and the reservation
-- is admitted although it takes more than is wanted.
pub reserve_oversells :
    (tenant new_id : String) (now : Time) (res : Reservation) (wanted : ℤ) (db : Db)
    → let r = Reservations.prep tenant new_id now res in
      is_some (select_row (item_row tenant r.item_id) db.items) ≡ true
      → count_where (open_on tenant r.item_id) db.contributions ≡ 0
      → select_row (Reservations.clashes r) db.reservations ≡ none
      → is_live r.state ≡ true
      → pos 0 ≤ℤ held tenant r.item_id db
      → held tenant r.item_id db ≤ℤ max_int64
      → r.quantity ≤ℤ max_int64
      → max_int64 <ℤ held tenant r.item_id db +ℤ r.quantity
      → pos 0 ≤ℤ wanted
      → wanted ≤ℤ max_int64
      → (db' : Db) × (Reservations.create_within_capacity tenant new_id now res wanted db
          ≡ ok (r, db'))
        × (wanted <ℤ held tenant r.item_id db')
reserve_oversells tenant new_id now res wanted db found none_open fresh live h0 h1 q1 over w0 w1 =
    let r = Reservations.prep tenant new_id now res in
    let one = prep_quantity tenant new_id now res in
    let h = held tenant r.item_id db in
    let db' = record db { reservations = r ∷ db.reservations } in
    let wraps = add64_overflow h r.quantity wanted h0 h1 (omega (arith, one)) q1 over w0 in
    (
      db',
      locked_admits tenant new_id now res wanted db found
          ∙ checked_admits tenant r wanted db none_open fresh (omega arith) wraps,
      rw (held-insert tenant r.item_id r db db' refl) (
          ground (
            arith,
            live_on_self tenant new_id now res live,
            +ℤ_parts r.quantity h,
            +ℤ_parts h r.quantity,
          )),
    )
