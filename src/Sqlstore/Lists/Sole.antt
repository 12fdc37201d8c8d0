-- ===== src/Sqlstore/Lists/Sole.antt =====
-- Who owns a list, along calls of internal/storage/sqlstore/lists.go that do not overlap.
use yaadegar.Base.{zero, ◌≤◌, String, true, ◌&&◌, ◌==◌, ◌≡◌, refl, List, [], ◌∷◌, ltb, arith}
use yaadegar.Base.Table.{count_where}
use yaadegar.Storage.{Result, ok, err}
use yaadegar.Sqlstore.Db.{Db, ListOwner}
use yaadegar.Sqlstore.Lists.{create, update, delete, add_owner, remove_owner, is_owner, owner_in}
use yaadegar.Sqlstore.Lists.Calls.{ListCall, committed, perform, perform_all}
use yaadegar.Sqlstore.Lists.Owned.{
  of_list, SingleOwner, create-SingleOwner, update-SingleOwner, delete-SingleOwner, add-SingleOwner,
  remove-SingleOwner,
}

committed-SingleOwner :
    {A : Type 0} (db : Db) (r : Result (A × Db))
    → ((a : A) (db' : Db) → r ≡ ok (a, db') → SingleOwner db')
    → SingleOwner db
    → SingleOwner (committed db r)
committed-SingleOwner db (err e) step ok_db = ok_db
committed-SingleOwner db (ok (a, db')) step ok_db = step a db' refl

perform-SingleOwner :
    (trim : String → String) (c : ListCall) (db : Db)
    → SingleOwner db
    → SingleOwner (perform trim c db)
unfolding perform
perform-SingleOwner trim (ListCall.creates tenant new_id slug now l owner) db ok_db =
    committed-SingleOwner db (create trim tenant new_id slug now l owner db)
      (λ r db' h. create-SingleOwner trim tenant new_id owner slug now l r db db' h ok_db) ok_db
perform-SingleOwner trim (ListCall.updates tenant l) db ok_db =
    committed-SingleOwner db (update trim tenant l db)
      (λ r db' h. update-SingleOwner trim tenant l r db db' h ok_db) ok_db
perform-SingleOwner trim (ListCall.deletes tenant id) db ok_db =
    committed-SingleOwner db (delete tenant id db)
      (λ u db' h. delete-SingleOwner tenant id db db' u h ok_db) ok_db
perform-SingleOwner trim (ListCall.adds_owner tenant id user now) db ok_db =
    committed-SingleOwner db (add_owner tenant id user now db)
      (λ u db' h. add-SingleOwner tenant id user now db db' u h ok_db) ok_db
perform-SingleOwner trim (ListCall.removes_owner tenant id user) db ok_db =
    committed-SingleOwner db (remove_owner tenant id user db)
      (λ u db' h. remove-SingleOwner tenant id user db db' u h ok_db) ok_db

perform_all-SingleOwner :
    (trim : String → String) (cs : List ListCall) (db : Db)
    → SingleOwner db
    → SingleOwner (perform_all trim cs db)
unfolding perform_all
perform_all-SingleOwner trim [] db ok_db = ok_db
perform_all-SingleOwner trim (c ∷ cs) db ok_db =
    perform_all-SingleOwner trim cs (perform trim c db) (perform-SingleOwner trim c db ok_db)

owner-counted :
    (tenant id user : String) (db : Db) (os : List ListOwner)
    → ltb zero (count_where (λ o. owner_in tenant id db o && o.user_id == user) os) ≡ true
    → 1 ≤ count_where (of_list id) os
unfolding count_where
owner-counted tenant id user db [] h = absurd (ground arith)
owner-counted tenant id user db (o ∷ os) h = ground (arith, owner-counted tenant id user db os)

one-user :
    (tenant tenant' id user user' : String) (db : Db) (os : List ListOwner)
    → count_where (of_list id) os ≤ 1
    → ltb zero (count_where (λ o. owner_in tenant id db o && o.user_id == user) os) ≡ true
    → ltb zero (count_where (λ o. owner_in tenant' id db o && o.user_id == user') os) ≡ true
    → user ≡ user'
unfolding count_where
one-user tenant tenant' id user user' db [] one h h' = absurd (ground arith)
one-user tenant tenant' id user user' db (o ∷ os) one h h' = ground (
  arith,
  one-user tenant tenant' id user user' db os,
  owner-counted tenant id user db os,
  owner-counted tenant' id user' db os,
)

-- Where no list has two owners and only lists that are there have one, this stays so, whatever lists
-- and owners are created, changed and deleted, in whatever order, by calls of which none begins before
-- the last has ended: two users who own a list are the same.
pub perform_all-owner :
    (trim : String → String) (cs : List ListCall) (db : Db) (tenant tenant' id user user' : String)
    → SingleOwner db
    → is_owner tenant id user (perform_all trim cs db) ≡ true
    → is_owner tenant' id user' (perform_all trim cs db) ≡ true
    → user ≡ user'
unfolding is_owner
perform_all-owner trim cs db tenant tenant' id user user' ok_db h h' =
    let after = perform_all trim cs db in
    one-user tenant tenant' id user user' after after.list_owners
      ((perform_all-SingleOwner trim cs db ok_db).at_most_one id) h h'
