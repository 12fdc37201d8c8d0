-- ===== src/Sqlstore/Exclusive.antt =====
-- The two tracks on an item, reservations and co-buying pledges, exclude one another (#93): what the
-- operations of reservations.go, decay.go, contributions.go, items.go and matches.go do to the rows
-- that hold an item.
pub mod Writes
pub mod Reach
use yaadegar.Base.{
  String, Bool, true, false, ◌&&◌, ◌==◌, ◌≡◌, refl, sym, ◌∙◌, ap, ◌⊎◌, inl, inr, List, [], ◌∷◌,
  Option, none, some, map, arith, if◌then◌else◌, Bool-cases, Option-cases, ltb, zero, ℕ, is_some,
}
use mathlib.Core.Path.{subst}
use yaadegar.Base.Int.{ℤ, ltb_ℤ}
use yaadegar.Base.Table.{All, select_row, count_where, update_where, delete_where}
use yaadegar.Base.Table.Count.{
  Weakens, count-map_zero, count-update_zero, count-delete_zero, select_row-none,
}
use yaadegar.Storage.{
  Result, ok, err, ◌>>=◌, ◌>>◌, Time, Reservation, Contribution, is_live, is_open,
}
use yaadegar.Sqlstore.Db.{Db, Op, scan_int64, with_item_lock}
use yaadegar.Sqlstore.Reservations
use yaadegar.Sqlstore.Reservations.{live_on, open_on}
use yaadegar.Sqlstore.Reservations.Moves.{Unique, Fresh, left, with_rows}
use yaadegar.Sqlstore.Reservations.Lifecycle.{
  Call, perform, effect, perform-effect, effect-Edge, Edge-keeps, effect-Unique,
}
use yaadegar.Sqlstore.Contributions
use yaadegar.Sqlstore.Matches
use yaadegar.Sqlstore.Matches.{expire_if_proposed}
use yaadegar.Sqlstore.Items

abbrev pub live_count : String → String → Db → ℕ
live_count tenant item db = count_where (live_on tenant item) db.reservations

abbrev pub open_count : String → String → Db → ℕ
open_count tenant item db = count_where (open_on tenant item) db.contributions

-- No item has both a live reservation and an open pledge.
abbrev pub Exclusive : Db → Type 0
Exclusive db =
    (tenant item : String) → (live_count tenant item db ≡ 0) ⊎ (open_count tenant item db ≡ 0)

-- The row that a successful `CreateWithinCapacity` adds, and what it found.
pub reserve_ok :
    (tenant new_id : String) (now : Time) (res r : Reservation) (wanted : ℤ) (db db' : Db)
    → Reservations.create_within_capacity tenant new_id now res wanted db ≡ ok (r, db')
    → (r ≡ Reservations.prep tenant new_id now res)
      × (open_count tenant r.item_id db ≡ 0)
      × (select_row (Reservations.clashes r) db.reservations ≡ none)
      × (db' ≡ record db { reservations = r ∷ db.reservations })
unfolding Reservations.create_within_capacity Reservations.create_checked Reservations.insert
reserve_ok tenant new_id now res r wanted db db' h = ground arith

pub reserve-Exclusive :
    (tenant new_id : String) (now : Time) (res r : Reservation) (wanted : ℤ) (db db' : Db)
    → Exclusive db
    → Reservations.create_within_capacity tenant new_id now res wanted db ≡ ok (r, db')
    → Exclusive db'
unfolding Reservations.prep count_where
reserve-Exclusive tenant new_id now res r wanted db db' x h t i =
    let done = reserve_ok tenant new_id now res r wanted db db' h in
    rw done.3 (ground (arith, done.0, done.1, x t i))

pub pledge_ok :
    (tenant new_id : String) (now : Time) (c r : Contribution) (price : ℤ) (db db' : Db)
    → Contributions.create_within_capacity tenant new_id now c price db ≡ ok (r, db')
    → (r ≡ Contributions.prep tenant new_id now c)
      × (live_count tenant r.item_id db ≡ 0)
      × (db' ≡ record db { contributions = r ∷ db.contributions })
unfolding Contributions.create_within_capacity Contributions.create_checked Contributions.insert
pledge_ok tenant new_id now c r price db db' h = ground arith

pub pledge-Exclusive :
    (tenant new_id : String) (now : Time) (c r : Contribution) (price : ℤ) (db db' : Db)
    → Exclusive db
    → Contributions.create_within_capacity tenant new_id now c price db ≡ ok (r, db')
    → Exclusive db'
unfolding Contributions.prep count_where
pledge-Exclusive tenant new_id now c r price db db' x h t i =
    let done = pledge_ok tenant new_id now c r price db db' h in
    rw done.2 (ground (arith, done.0, done.1, x t i))

-- A change of the tables under which no item gains a live reservation or an open pledge.
abbrev pub Lessens : Db → Db → Type 0
Lessens db db' =
    (t i : String)
    → (live_count t i db ≡ 0 → live_count t i db' ≡ 0)
      × (open_count t i db ≡ 0 → open_count t i db' ≡ 0)

pub Lessens-Exclusive : (db db' : Db) → Lessens db db' → Exclusive db → Exclusive db'
Lessens-Exclusive db db' less x t i = elim (x t i) [
  | inl z ↦ inl ((less t i).0 z)
  | inr z ↦ inr ((less t i).1 z)
]

pub transition-Lessens :
    (tenant : String) (c : Call) (db : Db)
    → Unique db.reservations
    → Lessens db (left db (perform tenant c db))
transition-Lessens tenant c db u t i = rw (perform-effect tenant c db u) (
  count-map_zero (live_on t i) (effect tenant c) db.reservations
      (λ r h. ground (arith, Edge-keeps r _ (effect-Edge tenant c r))),
  λ z. z,
)

pub release_ok :
    (tenant id : String) (db db' : Db)
    → Reservations.delete tenant id db ≡ ok (tt, db')
    → db' ≡ with_rows db (delete_where (Reservations.row tenant id) db.reservations)
unfolding Reservations.delete
release_ok tenant id db db' h = ground arith

pub release-Lessens :
    (tenant id : String) (db db' : Db)
    → Reservations.delete tenant id db ≡ ok (tt, db')
    → Lessens db db'
release-Lessens tenant id db db' h t i =
    rw (release_ok tenant id db db' h)
      (count-delete_zero (Reservations.row tenant id) (live_on t i) db.reservations, λ z. z)

pub withdraw_ok :
    (tenant id : String) (db db' : Db)
    → Contributions.delete tenant id db ≡ ok (tt, db')
    → (db'.reservations ≡ db.reservations)
      × (db'.contributions ≡ delete_where (Contributions.row tenant id) db.contributions)
unfolding Contributions.delete
withdraw_ok tenant id db db' h = ground arith

pub withdraw-Lessens :
    (tenant id : String) (db db' : Db)
    → Contributions.delete tenant id db ≡ ok (tt, db')
    → Lessens db db'
withdraw-Lessens tenant id db db' h t i =
    let done = withdraw_ok tenant id db db' h in
    rw (done.0, done.1)
      ((λ z. z), count-delete_zero (Contributions.row tenant id) (open_on t i) db.contributions)

-- What un-archiving does to the reservations.
pub unarchive_ok :
    (tenant id : String) (at : Time) (b : Bool) (db db' : Db)
    → Items.unarchive tenant id at db ≡ ok (b, db')
    → (db'.contributions ≡ db.contributions)
      × ((db'.reservations ≡ db.reservations)
          ⊎ (db'.reservations
              ≡ update_where (live_on tenant id) (Items.restart_clock at) db.reservations))
unfolding Items.unarchive Items.get
unarchive_ok tenant id at b db db' h = ground arith

pub unarchive-Lessens :
    (tenant id : String) (at : Time) (b : Bool) (db db' : Db)
    → Items.unarchive tenant id at db ≡ ok (b, db')
    → Lessens db db'
unarchive-Lessens tenant id at b db db' h t i =
    let done = unarchive_ok tenant id at b db db' h in
    let kept =
      count-update_zero (live_on tenant id) (live_on t i) (Items.restart_clock at) db.reservations
        (λ r p q. q) in
    ground (arith, done, kept)

pub archive_ok :
    (tenant id : String) (at : Time) (b : Bool) (db db' : Db)
    → Items.archive tenant id at db ≡ ok (b, db')
    → (db'.contributions ≡ db.contributions) × (db'.reservations ≡ db.reservations)
unfolding Items.archive Items.get
archive_ok tenant id at b db db' h = ground arith

pub dissolve_ok :
    (tenant item_id match_id : String) (b : Bool) (db db' : Db)
    → expire_if_proposed tenant item_id match_id db ≡ ok (b, db')
    → (db'.reservations ≡ db.reservations)
      × ((db'.contributions ≡ db.contributions)
          ⊎ (db'.contributions
              ≡ update_where (Matches.on_match tenant match_id) Matches.spend db.contributions))
unfolding expire_if_proposed
dissolve_ok tenant item_id match_id b db db' h = ground arith

pub dissolve-Lessens :
    (tenant item_id match_id : String) (b : Bool) (db db' : Db)
    → expire_if_proposed tenant item_id match_id db ≡ ok (b, db')
    → Lessens db db'
dissolve-Lessens tenant item_id match_id b db db' h t i =
    let done = dissolve_ok tenant item_id match_id b db db' h in
    let kept =
      count-update_zero (Matches.on_match tenant match_id) (open_on t i) Matches.spend
        db.contributions (λ c p q. ground arith) in
    ground (arith, done, kept)
