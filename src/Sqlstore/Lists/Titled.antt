-- ===== src/Sqlstore/Lists/Titled.antt =====
-- The titles that internal/storage/sqlstore/lists.go stores.
use yaadegar.Base.{
  String, Bool, true, false, not, ◌||◌, ◌==◌, ◌≡◌, refl, List, [], ◌∷◌, Option, arith, inl, inr,
}
use yaadegar.Base.Table.{count_where}
use yaadegar.Base.Table.Count.{count-update_zero, count-delete_zero}
use yaadegar.Storage.{Result-cases, ok, GiftList, Time}
use yaadegar.Sqlstore.Db.{Db}
use yaadegar.Sqlstore.Lists.{
  stored_title, minted, create, insert, update, delete, add_owner, add_to, remove_owner, owners,
  list_row, prep, to_columns, set_list,
}
use yaadegar.Sqlstore.Lists.Calls.{ListCall, committed, perform, perform_all}
use yaadegar.Sqlstore.Lists.Owned.{new_row, updated, deleted}

-- A title that is empty, or that trimming would change.
abbrev pub untidy : (String → String) → GiftList → Bool
untidy trim l = l.title == "" || not (trim l.title == l.title)

abbrev pub AllTidy : (String → String) → Db → Type 0
AllTidy trim db = count_where (untidy trim) db.lists ≡ 0

create-AllTidy :
    (trim : String → String) (tenant new_id owner : String) (slug : Option String) (now : Time)
    (l r : GiftList) (db db' : Db)
    → trim (trim l.title) ≡ trim l.title
    → create trim tenant new_id slug now l owner db ≡ ok (r, db')
    → AllTidy trim db
    → AllTidy trim db'
unfolding create stored_title minted insert prep to_columns count_where
create-AllTidy trim tenant new_id owner slug now l r db db' twice h tidy = ground arith

update-AllTidy :
    (trim : String → String) (tenant : String) (l r : GiftList) (db db' : Db)
    → trim (trim l.title) ≡ trim l.title
    → update trim tenant l db ≡ ok (r, db')
    → AllTidy trim db
    → AllTidy trim db'
unfolding to_columns
update-AllTidy trim tenant l r db db' twice h tidy =
    let (full, now) = updated trim tenant l r db db' h in
    rw now (
      count-update_zero (list_row tenant l.id) (untidy trim) (set_list (new_row trim l)) db.lists
        (λ x hit bad. absurd (ground arith)) tidy)

-- The calls on owners leave the lists as they are.
adds-lists :
    (there : Bool) (tenant id user : String) (now : Time) (os : List String) (db : Db)
    → (committed db (add_to there tenant id user now os db)).lists ≡ db.lists
unfolding add_to
adds-lists true tenant id user now [] db = ground arith
adds-lists false tenant id user now [] db = refl
adds-lists there tenant id user now (o ∷ os) db = ground arith

add_owner-lists :
    (tenant id user : String) (now : Time) (db : Db)
    → (committed db (add_owner tenant id user now db)).lists ≡ db.lists
unfolding add_owner
add_owner-lists tenant id user now db = adds-lists _ tenant id user now (owners tenant id db) db

remove_owner-lists :
    (tenant id user : String) (db : Db)
    → (committed db (remove_owner tenant id user db)).lists ≡ db.lists
unfolding remove_owner
remove_owner-lists tenant id user db = refl

perform-AllTidy :
    (trim : String → String) (c : ListCall) (db : Db)
    → ((s : String) → trim (trim s) ≡ trim s)
    → AllTidy trim db
    → AllTidy trim (perform trim c db)
unfolding perform
perform-AllTidy trim (ListCall.creates tenant new_id slug now l owner) db twice tidy =
    elim (Result-cases (create trim tenant new_id slug now l owner db)) [
      | inl (e, failed) ↦ rw failed tidy
      | inr ((r, db'), done) ↦
          rw done
            (create-AllTidy trim tenant new_id owner slug now l r db db' (twice l.title) done tidy)
    ]
perform-AllTidy trim (ListCall.updates tenant l) db twice tidy =
    elim (Result-cases (update trim tenant l db)) [
      | inl (e, failed) ↦ rw failed tidy
      | inr ((r, db'), done) ↦
          rw done (update-AllTidy trim tenant l r db db' (twice l.title) done tidy)
    ]
perform-AllTidy trim (ListCall.deletes tenant id) db twice tidy =
    elim (Result-cases (delete tenant id db)) [
      | inl (e, failed) ↦ rw failed tidy
      | inr ((u, db'), done) ↦
          rw (done, (deleted tenant id db db' u done).1)
            (count-delete_zero (list_row tenant id) (untidy trim) db.lists tidy)
    ]
perform-AllTidy trim (ListCall.adds_owner tenant id user now) db twice tidy =
    rw (add_owner-lists tenant id user now db) tidy
perform-AllTidy trim (ListCall.removes_owner tenant id user) db twice tidy =
    rw (remove_owner-lists tenant id user db) tidy

-- Where trimming twice is trimming once, and every title is trimmed and not empty, this stays so
-- through any creations, changes and deletions of lists and owners.
pub perform_all-AllTidy :
    (trim : String → String) (cs : List ListCall) (db : Db)
    → ((s : String) → trim (trim s) ≡ trim s)
    → AllTidy trim db
    → AllTidy trim (perform_all trim cs db)
unfolding perform_all
perform_all-AllTidy trim [] db twice tidy = tidy
perform_all-AllTidy trim (c ∷ cs) db twice tidy =
    perform_all-AllTidy trim cs (perform trim c db) twice (perform-AllTidy trim c db twice tidy)
