-- ===== src/Sqlstore/Reservations/Undo.antt =====
-- `Delete` after `CreateWithinCapacity` of reservations.go.
use yaadegar.Base.{String, ◌≡◌, refl, List, [], ◌∷◌, none, arith}
use yaadegar.Base.Int.{ℤ}
use yaadegar.Base.Table.{select_row, delete_where, count_where}
use yaadegar.Storage.{ok, Time, Reservation}
use yaadegar.Sqlstore.Db.{Db}
use yaadegar.Sqlstore.Reservations.{
  clashes, row, prep, insert, create_checked, create_within_capacity, delete, by_token_hash, get_by,
}

-- A stored row: its tenant is bound, and no other row clashes with it.
abbrev pub Stored : String → Reservation → Db → Db → Type 0
Stored tenant r db db' =
    (r.tenant_id ≡ tenant)
    × (select_row (clashes r) db.reservations ≡ none)
    × (db' ≡ record db { reservations = r ∷ db.reservations })

insert-Stored :
    (tenant : String) (res r : Reservation) (wanted : ℤ) (db db' : Db)
    → res.tenant_id ≡ tenant
    → create_checked tenant res wanted db ≡ ok (r, db')
    → Stored tenant r db db'
unfolding create_checked insert
insert-Stored tenant res r wanted db db' e h = ground arith

pub create-Stored :
    (tenant new_id : String) (now : Time) (res r : Reservation) (wanted : ℤ) (db db' : Db)
    → create_within_capacity tenant new_id now res wanted db ≡ ok (r, db')
    → Stored tenant r db db'
unfolding create_within_capacity prep
create-Stored tenant new_id now res r wanted db db' h =
    ground (arith, insert-Stored tenant (prep tenant new_id now res) r wanted db db' refl)

delete_fresh :
    (tenant : String) (r : Reservation) (l : List Reservation)
    → select_row (clashes r) l ≡ none
    → delete_where (row tenant r.id) l ≡ l
unfolding select_row delete_where
delete_fresh tenant r [] h = refl
delete_fresh tenant r (x ∷ l) h = let rest = delete_fresh tenant r l in ground arith

-- Deleting the row that was just inserted succeeds and restores the database.
pub delete-create :
    (tenant : String) (r : Reservation) (db db' : Db)
    → Stored tenant r db db'
    → delete tenant r.id db' ≡ ok (tt, db)
unfolding delete count_where delete_where
delete-create tenant r db db' (own, fresh, e) =
    let rest = delete_fresh tenant r db.reservations fresh in rw e (ground arith)

-- The token of the row that was just inserted finds this row.
pub by_token_hash-create :
    (tenant : String) (r : Reservation) (db db' : Db)
    → Stored tenant r db db'
    → by_token_hash tenant r.token_hash db' ≡ ok r
unfolding by_token_hash get_by select_row
by_token_hash-create tenant r db db' (own, fresh, e) = rw e (ground arith)
