-- ===== src/Sqlstore/Capacity/Pledges.antt =====
-- `CreateWithinCapacity` of contributions.go: the pledges on an item and its price.
use yaadegar.Base.{String, true, false, ◌≡◌, sym, ◌∙◌, ◌∷◌, none, arith, is_some}
use yaadegar.Base.Int.{ℤ, pos, ◌+ℤ◌, ◌≤ℤ◌, ◌<ℤ◌, ltb_ℤ, int_laws, +ℤ_parts}
use yaadegar.Base.Int64.{IsInt64, max_int64, add64, add64-le, add64_overflow}
use yaadegar.Base.Table.{select_row, select_where, count_where}
use yaadegar.Storage.{ok, Time, Contribution, is_open}
use yaadegar.Sqlstore.Db.{Db, sum, item_row}
use yaadegar.Sqlstore.Reservations.{live_on, open_on}
use yaadegar.Sqlstore.Contributions
use yaadegar.Sqlstore.Contributions.{pledges}

-- What open pledges fund of an item.
abbrev pub funded : String → String → Db → ℤ
funded tenant item db = sum (pledges (select_where (open_on tenant item) db.contributions))

checked_ok :
    (tenant : String) (c r : Contribution) (price : ℤ) (db db' : Db)
    → Contributions.create_checked tenant c price db ≡ ok (r, db')
    → (r ≡ c)
      × (ltb_ℤ price (add64 (funded tenant c.item_id db) c.pledged.amount_minor) ≡ false)
      × (db' ≡ record db { contributions = c ∷ db.contributions })
unfolding Contributions.create_checked Contributions.insert
checked_ok tenant c r price db db' h = ground arith

pub pledge-checks :
    (tenant new_id : String) (now : Time) (c r : Contribution) (price : ℤ) (db db' : Db)
    → Contributions.create_within_capacity tenant new_id now c price db ≡ ok (r, db')
    → (r ≡ Contributions.prep tenant new_id now c)
      × (ltb_ℤ price (add64 (funded tenant r.item_id db) r.pledged.amount_minor) ≡ false)
      × (db' ≡ record db { contributions = r ∷ db.contributions })
unfolding Contributions.create_within_capacity
pledge-checks tenant new_id now c r price db db' h =
    let c' = Contributions.prep tenant new_id now c in
    ground (arith, checked_ok tenant c' r price db db')

funded-insert :
    (tenant item : String) (r : Contribution) (db : Db)
    → open_on tenant item r ≡ true
    → funded tenant item (record db { contributions = r ∷ db.contributions })
      ≡ r.pledged.amount_minor +ℤ funded tenant item db
unfolding select_where
funded-insert tenant item r db e = rw e

open_on_self :
    (tenant new_id : String) (now : Time) (c : Contribution)
    → let r = Contributions.prep tenant new_id now c in
      is_open r.status ≡ true → open_on tenant r.item_id r ≡ true
unfolding Contributions.prep
open_on_self tenant new_id now c h = ground arith

open_on_stored :
    (tenant new_id : String) (now : Time) (c r : Contribution)
    → r ≡ Contributions.prep tenant new_id now c
    → is_open r.status ≡ true
    → open_on tenant r.item_id r ≡ true
open_on_stored tenant new_id now c r e opened =
    rw e (open_on_self tenant new_id now c (rw (sym e) opened))

-- A pledge that is admitted leaves its item funded to its price at most, provided that what was
-- pledged and what is pledged now add up to an int64.
pub pledge-le-price :
    (tenant new_id : String) (now : Time) (c r : Contribution) (price : ℤ) (db db' : Db)
    → Contributions.create_within_capacity tenant new_id now c price db ≡ ok (r, db')
    → is_open r.status ≡ true
    → IsInt64 (funded tenant r.item_id db +ℤ r.pledged.amount_minor)
    → funded tenant r.item_id db' ≤ℤ price
pledge-le-price tenant new_id now c r price db db' h opened fits =
    let done = pledge-checks tenant new_id now c r price db db' h in
    let before = funded tenant r.item_id db in
    let amount = r.pledged.amount_minor in
    let le = add64-le before amount price fits done.1 in
    let self : open_on tenant r.item_id r ≡ true =
      open_on_stored tenant new_id now c r done.0 opened in
    rw (done.2, funded-insert tenant r.item_id r db self) (omega (int_laws, le))

checked_admits :
    (tenant : String) (r : Contribution) (price : ℤ) (db : Db)
    → count_where (live_on tenant r.item_id) db.reservations ≡ 0
    → select_row (Contributions.clashes r) db.contributions ≡ none
    → IsInt64 (funded tenant r.item_id db)
    → ltb_ℤ price (add64 (funded tenant r.item_id db) r.pledged.amount_minor) ≡ false
    → Contributions.create_checked tenant r price db
      ≡ ok (r, record db { contributions = r ∷ db.contributions })
unfolding Contributions.create_checked Contributions.insert
checked_admits tenant r price db none_live fresh fits le = ground arith

locked_admits :
    (tenant new_id : String) (now : Time) (c : Contribution) (price : ℤ) (db : Db)
    → let r = Contributions.prep tenant new_id now c in
      is_some (select_row (item_row tenant r.item_id) db.items) ≡ true
      → Contributions.create_within_capacity tenant new_id now c price db
        ≡ Contributions.create_checked tenant r price db
unfolding Contributions.create_within_capacity
locked_admits tenant new_id now c price db found = rw found

-- Where the amount pledged takes the sum past the greatest int64, the sum wraps around to a negative
-- number, and the pledge is admitted although it funds the item beyond its price.
pub pledge_overfunds :
    (tenant new_id : String) (now : Time) (c : Contribution) (price : ℤ) (db : Db)
    → let r = Contributions.prep tenant new_id now c in
      is_some (select_row (item_row tenant r.item_id) db.items) ≡ true
      → count_where (live_on tenant r.item_id) db.reservations ≡ 0
      → select_row (Contributions.clashes r) db.contributions ≡ none
      → is_open r.status ≡ true
      → pos 0 ≤ℤ funded tenant r.item_id db
      → funded tenant r.item_id db ≤ℤ max_int64
      → pos 0 ≤ℤ r.pledged.amount_minor
      → r.pledged.amount_minor ≤ℤ max_int64
      → max_int64 <ℤ funded tenant r.item_id db +ℤ r.pledged.amount_minor
      → pos 0 ≤ℤ price
      → price ≤ℤ max_int64
      → (db' : Db) × (Contributions.create_within_capacity tenant new_id now c price db
          ≡ ok (r, db'))
        × (price <ℤ funded tenant r.item_id db')
pledge_overfunds tenant new_id now c price db found none_live fresh opened f0 f1 a0 a1 over p0 p1 =
    let r = Contributions.prep tenant new_id now c in
    let f = funded tenant r.item_id db in
    let amount = r.pledged.amount_minor in
    (
      record db { contributions = r ∷ db.contributions },
      locked_admits tenant new_id now c price db found
          ∙ checked_admits tenant r price db none_live fresh (omega arith)
              (add64_overflow f amount price f0 f1 a0 a1 over p0),
      rw (funded-insert tenant r.item_id r db (open_on_self tenant new_id now c opened))
          (omega (int_laws, +ℤ_parts amount f, +ℤ_parts f amount)),
    )
