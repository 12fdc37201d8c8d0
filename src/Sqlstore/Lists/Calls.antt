-- ===== src/Sqlstore/Lists/Calls.antt =====
-- The writes of internal/storage/sqlstore/lists.go, of every tenant, in any order. A call begins after
-- the one before it has ended; `AddOwner` is not a transaction, so two of them may also overlap, which
-- is in Overlap.
use yaadegar.Base.{String, List, [], ◌∷◌, Option}
use yaadegar.Storage.{Result, ok, err, GiftList, Time}
use yaadegar.Sqlstore.Db.{Db}
use yaadegar.Sqlstore.Lists.{create, update, delete, add_owner, remove_owner}

-- A call, with the id, the slug and the instant that it takes from outside.
pub data ListCall : Type 0 where
  creates : String → String → Option String → Time → GiftList → String → ListCall
  updates : String → GiftList → ListCall
  deletes : String → String → ListCall
  adds_owner : String → String → String → Time → ListCall
  removes_owner : String → String → String → ListCall

-- A call that fails is rolled back.
abbrev pub committed : {A : Type 0} → Db → Result (A × Db) → Db
committed db (err e) = db
committed db (ok (a, db')) = db'

unfoldable pub perform : (String → String) → ListCall → Db → Db
perform trim (ListCall.creates tenant new_id slug now l owner) db =
    committed db (create trim tenant new_id slug now l owner db)
perform trim (ListCall.updates tenant l) db = committed db (update trim tenant l db)
perform trim (ListCall.deletes tenant id) db = committed db (delete tenant id db)
perform trim (ListCall.adds_owner tenant id user now) db =
    committed db (add_owner tenant id user now db)
perform trim (ListCall.removes_owner tenant id user) db =
    committed db (remove_owner tenant id user db)

unfoldable pub perform_all : (String → String) → List ListCall → Db → Db
unfolding perform
perform_all trim [] db = db
perform_all trim (c ∷ cs) db = perform_all trim cs (perform trim c db)
