-- ===== src/Tests/Store.antt =====
-- Runs of the store.
use yaadegar.Base.{◌≡◌, refl, [], ◌∷◌, arith, string_discrete, none}
use mathlib.Core.List.{Memᴰ}
use yaadegar.Base.Int.{pos, ◌+ℤ◌, ◌≤ℤ◌, ◌<ℤ◌}
use yaadegar.Base.Int64.{max_int64, add64, wrap64}
use yaadegar.Base.Table.{select_row, select_where, count_where}
use yaadegar.Storage.{ok, Reservation, Contribution, ContributionStatus}
use yaadegar.Sqlstore.Db.{Db}
use yaadegar.Sqlstore.Reservations
use yaadegar.Sqlstore.Reservations.{set_expired}
use yaadegar.Sqlstore.Reservations.Lifecycle.{Call, perform_all, perform_all-expired}
use yaadegar.Sqlstore.Contributions
use yaadegar.Sqlstore.Exclusive.Reach.{Reach}
use yaadegar.Sqlstore.Capacity.{held, reserve-le-wanted, reserve_admits, reserve_oversells}
use yaadegar.Sqlstore.Capacity.Pledges.{funded, pledge-le-price, pledge_overfunds}
use yaadegar.Tests.Fixtures.{after_hours, held as on_kettle, pledge, unconfirmed, on_shelved, db0}

-- One reservation is released, then another is asked about.
abbrev released : Db
released = record db0 { reservations = unconfirmed ∷ on_shelved ∷ [] }

-- A row that has lapsed, and two calls that come too late for it.
abbrev lapsed : Reservation
lapsed = set_expired (after_hours 5) unconfirmed

abbrev db_lapsed : Db
db_lapsed = record db0 { reservations = lapsed ∷ [] }

perform_all-expired_example :
    Memᴰ lapsed
      (perform_all
        (("alice", Call.confirm "r2" "h9" (after_hours 6))
          ∷ ("alice", Call.keep "r2" (after_hours 7))
          ∷ [])
        db_lapsed).reservations
perform_all-expired_example =
    perform_all-expired
      (("alice", Call.confirm "r2" "h9" (after_hours 6))
        ∷ ("alice", Call.keep "r2" (after_hours 7))
        ∷ [])
      db_lapsed lapsed (tt, tt) refl (Memᴰ.head refl)

-- Two kettles are wanted, and nothing is held.
abbrev free : Db
free = record db0 { reservations = [] }

abbrev asked : Reservation
asked = record on_kettle { id = "r8"; quantity = pos 2; token_hash = "h8" }

taken :
    Reservations.create_within_capacity "alice" "r8" (after_hours 1) asked (pos 2) free
    ≡ ok (asked, record free { reservations = asked ∷ [] })
unfolding Reservations.create_within_capacity Reservations.create_checked Reservations.insert
    Reservations.prep count_where select_where select_row add64 wrap64 ◌+ℤ◌ string_discrete
taken = refl

reserve-le-wanted_example : held "alice" "i1" (record free { reservations = asked ∷ [] }) ≤ℤ pos 2
unfolding select_where ◌+ℤ◌
reserve-le-wanted_example =
    reserve-le-wanted "alice" "r8" (after_hours 1) asked asked (pos 2) free
      (record free { reservations = asked ∷ [] }) taken (omega arith)

reserve_admits_example :
    Reservations.create_within_capacity "alice" "r8" (after_hours 1) asked (pos 2) free
    ≡ ok (
      Reservations.prep "alice" "r8" (after_hours 1) asked,
      record free { reservations = Reservations.prep "alice" "r8" (after_hours 1) asked ∷ [] },
    )
unfolding Reservations.prep count_where select_where select_row ◌+ℤ◌ string_discrete
reserve_admits_example =
    reserve_admits "alice" "r8" (after_hours 1) asked (pos 2) free refl refl refl (omega arith)
      (omega arith) (omega arith)

-- One kettle is held, and more are asked for than an int64 counts.
abbrev one_held : Db
one_held = record db0 { reservations = on_kettle ∷ [] }

abbrev greedy : Reservation
greedy = record asked { quantity = max_int64 }

reserve_oversells_example :
    (db' : Db) × (Reservations.create_within_capacity "alice" "r8"
        (after_hours 1)
        greedy
        (pos 2)
        one_held
      ≡ ok (Reservations.prep "alice" "r8" (after_hours 1) greedy, db'))
    × (pos 2 <ℤ held "alice" "i1" db')
unfolding Reservations.prep count_where select_where select_row ◌+ℤ◌ string_discrete
reserve_oversells_example =
    reserve_oversells "alice" "r8" (after_hours 1) greedy (pos 2) one_held refl refl refl refl
      (omega arith) (omega arith) (omega arith) (omega arith) (omega arith) (omega arith)

-- A pledge on the lamp.
abbrev pledged : Contribution
pledged = record pledge { status = ContributionStatus.pending; match_id = none }

pledge_run :
    Contributions.create_within_capacity "alice" "c1" (after_hours 1) pledged (pos 5000) free
    ≡ ok (pledged, record free { contributions = pledged ∷ [] })
unfolding Contributions.create_within_capacity Contributions.create_checked Contributions.insert
    Contributions.prep count_where select_where select_row add64 wrap64 ◌+ℤ◌ string_discrete
pledge_run = refl

pledge-le-price_example :
    funded "alice" "i2" (record free { contributions = pledged ∷ [] }) ≤ℤ pos 5000
unfolding select_where ◌+ℤ◌
pledge-le-price_example =
    pledge-le-price "alice" "c1" (after_hours 1) pledged pledged (pos 5000) free
      (record free { contributions = pledged ∷ [] }) pledge_run refl (omega arith)

-- The lamp has a pledge, and another one asks for more cents than an int64 counts.
abbrev one_pledged : Db
one_pledged = record free { contributions = pledged ∷ [] }

abbrev huge : Contribution
huge = record pledged {
  id = "c8";
  token_hash = "p8";
  pledged = record { amount_minor = max_int64; currency = "EUR" };
}

pledge_overfunds_example :
    (db' : Db) × (Contributions.create_within_capacity "alice" "c8"
        (after_hours 1)
        huge
        (pos 5000)
        one_pledged
      ≡ ok (Contributions.prep "alice" "c8" (after_hours 1) huge, db'))
    × (pos 5000 <ℤ funded "alice" "i2" db')
unfolding Contributions.prep count_where select_where select_row ◌+ℤ◌ string_discrete
pledge_overfunds_example =
    pledge_overfunds "alice" "c8" (after_hours 1) huge (pos 5000) one_pledged refl refl refl refl
      (omega arith) (omega arith) (omega arith) (omega arith) (omega arith) (omega arith)
      (omega arith)
