-- ===== src/Sqlstore/Lists/Overlap.antt =====
-- Two calls of `AddOwner` of internal/storage/sqlstore/lists.go that overlap: both read before either
-- inserts.
use yaadegar.Base.{String, true, false, ◌==◌, ◌&&◌, ◌≡◌, refl, List, [], ◌∷◌, is_some, map, arith}
use yaadegar.Base.Table.{select_row, select_where, count_where}
use yaadegar.Storage.{ok, Time}
use yaadegar.Sqlstore.Db.{Db, ListOwner}
use yaadegar.Sqlstore.Lists.{list_row, owners, owner_in, add_after, is_owner}
use yaadegar.Sqlstore.Lists.Owned.{of_list}

-- Nobody owns the list.
abbrev pub Unowned : String → Db → Type 0
Unowned id db = count_where (of_list id) db.list_owners ≡ 0

unowned-missing :
    (id user : String) (os : List ListOwner)
    → count_where (of_list id) os ≡ 0
    → is_some (select_row (λ o. o.list_id == id && o.user_id == user) os) ≡ false
unfolding count_where select_row
unowned-missing id user [] h = refl
unowned-missing id user (o ∷ os) h = ground (arith, unowned-missing id user os)

unowned-owners :
    (tenant id : String) (db : Db) (os : List ListOwner)
    → count_where (of_list id) os ≡ 0
    → map (λ o. o.user_id) (select_where (owner_in tenant id db) os) ≡ []
unfolding count_where select_where
unowned-owners tenant id db [] h = refl
unowned-owners tenant id db (o ∷ os) h = ground (arith, unowned-owners tenant id db os)

-- Two calls for different users that overlap, so that both read the owners of the list before either
-- inserts, both succeed where nobody owns the list, and leave it with two owners.
pub add_owner-overlap :
    (tenant id user user' : String) (now now' : Time) (db : Db)
    → is_some (select_row (list_row tenant id) db.lists) ≡ true
    → Unowned id db
    → (user == user') ≡ false
    → let read = owners tenant id db in
      (db1 : Db) × (db2 : Db) × (add_after read tenant id user now db ≡ ok (tt, db1))
      × (add_after read tenant id user' now' db1 ≡ ok (tt, db2))
      × (is_owner tenant id user db2 ≡ true)
      × (is_owner tenant id user' db2 ≡ true)
unfolding add_after owners is_owner count_where select_row
add_owner-overlap tenant id user user' now now' db there nobody differ =
    let none_read = unowned-owners tenant id db db.list_owners nobody in
    let free = unowned-missing id user db.list_owners nobody in
    let free' = unowned-missing id user' db.list_owners nobody in
    let first : ListOwner = record { list_id = id; user_id = user; added_at = now } in
    let second : ListOwner = record { list_id = id; user_id = user'; added_at = now' } in
    let db1 : Db = record db { list_owners = first ∷ db.list_owners } in
    let db2 : Db = record db { list_owners = second ∷ first ∷ db.list_owners } in
    rw (none_read, there) (db1, db2, ground arith, ground arith, ground arith, ground arith)
