-- ===== src/Sqlstore/Lists/Owned.antt =====
-- The single owner of v1: what `Create`, `AddOwner`, `RemoveOwner` and `Delete` of lists.go keep.
use yaadegar.Base.{
  ◌≤◌, String, Bool, true, false, ◌&&◌, ◌==◌, ◌⊎◌, ◌≡◌, refl, sym, List, [], ◌∷◌, Option, none, map,
  is_some, arith, Bool-cases, inl, inr,
}
use yaadegar.Base.Table.{select_row, select_where, count_where, update_where, delete_where}
use yaadegar.Base.Table.Count.{count-select_none}
use yaadegar.Storage.{Result-cases, ok, GiftList, Time}
use yaadegar.Sqlstore.Db.{Db, ListOwner}
use yaadegar.Sqlstore.Lists.{
  stored_title, minted, create, insert, update, delete, add_owner, add_to, remove_owner, owners,
  owner_in, list_row, clashes, prep, to_columns, set_list, with_defaults,
}

abbrev pub of_list : String → ListOwner → Bool
of_list id o = o.list_id == id

abbrev pub has_id : String → GiftList → Bool
has_id id l = l.id == id

-- A list has one owner at most, and the lists that have one are there.
pub record SingleOwner (db : Db) : Type 0 where
  pub at_most_one : (id : String) → count_where (of_list id) db.list_owners ≤ 1
  pub known :
      (id : String)
      → select_row (has_id id) db.lists ≡ none
      → count_where (of_list id) db.list_owners ≡ 0

pub inserted :
    (l r : GiftList) (owner : String) (db db' : Db)
    → insert l owner db ≡ ok (r, db')
    → (select_row (clashes l) db.lists ≡ none)
      × (db' ≡ record db {
        lists = to_columns (with_defaults l) ∷ db.lists;
        list_owners =
            (record { list_id = l.id; user_id = owner; added_at = l.created_at }) ∷ db.list_owners;
      })
unfolding insert
inserted l r owner db db' h = ground arith

fresh_id :
    (l : GiftList) (ls : List GiftList)
    → select_row (clashes l) ls ≡ none
    → select_row (has_id l.id) ls ≡ none
unfolding select_row
fresh_id l [] h = refl
fresh_id l (x ∷ ls) h = ground (arith, fresh_id l ls)

insert-SingleOwner :
    (l r : GiftList) (owner : String) (db db' : Db)
    → insert l owner db ≡ ok (r, db')
    → SingleOwner db
    → SingleOwner db'
unfolding count_where select_row to_columns
insert-SingleOwner l r owner db db' h ok_db =
    let (fresh, now) = inserted l r owner db db' h in
    let none_yet = ok_db.known l.id (fresh_id l db.lists fresh) in
    rw now (record {
      at_most_one = λ id. ground (arith, ok_db.at_most_one id, none_yet);
      known = λ id missing. ground (arith, ok_db.known id);
    })

pub create-SingleOwner :
    (trim : String → String) (tenant new_id owner : String) (slug : Option String) (now : Time)
    (l r : GiftList) (db db' : Db)
    → create trim tenant new_id slug now l owner db ≡ ok (r, db')
    → SingleOwner db
    → SingleOwner db'
unfolding create stored_title minted
create-SingleOwner trim tenant new_id owner slug now l r db db' h ok_db =
    elim (Result-cases (stored_title trim l.title)) [
      | inl (e, failed) ↦ absurd (ground arith)
      | inr (title, e1) ↦ elim (Result-cases (minted l.share_slug slug)) [
        | inl (e, failed) ↦ absurd (ground arith)
        | inr (s, e2) ↦
            insert-SingleOwner (prep tenant title new_id s now owner l) r owner db db'
              (ground arith) ok_db
      ]
    ]

-- An update of a list keeps its id.
ids-update :
    (id tenant id' : String) (l : GiftList) (ls : List GiftList)
    → select_row (has_id id) (update_where (list_row tenant id') (set_list l) ls) ≡ none
    → select_row (has_id id) ls ≡ none
unfolding select_row update_where
ids-update id tenant id' l [] h = refl
ids-update id tenant id' l (x ∷ ls) h = ground (arith, ids-update id tenant id' l ls)

abbrev pub new_row : (String → String) → GiftList → GiftList
new_row trim l = to_columns (record l { title = trim l.title })

pub updated :
    (trim : String → String) (tenant : String) (l r : GiftList) (db db' : Db)
    → update trim tenant l db ≡ ok (r, db')
    → ((trim l.title == "") ≡ false)
      × (db' ≡ record db {
        lists = update_where (list_row tenant l.id) (set_list (new_row trim l)) db.lists;
      })
unfolding update stored_title
updated trim tenant l r db db' h = ground arith

pub update-SingleOwner :
    (trim : String → String) (tenant : String) (l r : GiftList) (db db' : Db)
    → update trim tenant l db ≡ ok (r, db')
    → SingleOwner db
    → SingleOwner db'
update-SingleOwner trim tenant l r db db' h ok_db =
    let now = (updated trim tenant l r db db' h).1 in
    rw now (record {
      at_most_one = λ id. ok_db.at_most_one id;
      known = λ id missing.
          ok_db.known id (ids-update id tenant l.id (new_row trim l) db.lists missing);
    })

-- The rows of a list that is deleted go with it; the others keep their list.
delete-other :
    (id tenant id' : String) (ls : List GiftList)
    → (id' == id) ≡ false
    → select_row (has_id id) (delete_where (list_row tenant id') ls) ≡ none
    → select_row (has_id id) ls ≡ none
unfolding select_row delete_where
delete-other id tenant id' [] ne h = refl
delete-other id tenant id' (x ∷ ls) ne h = ground (arith, delete-other id tenant id' ls ne)

count-delete-le :
    (p q : ListOwner → Bool) (os : List ListOwner)
    → count_where q (delete_where p os) ≤ count_where q os
unfolding count_where delete_where
count-delete-le p q [] = omega arith
count-delete-le p q (o ∷ os) = ground (arith, count-delete-le p q os)

none_named :
    (p q : ListOwner → Bool) (os : List ListOwner)
    → map (λ o. o.user_id) (select_where p os) ≡ []
    → ((o : ListOwner) → q o ≡ true → p o ≡ true)
    → count_where q os ≡ 0
unfolding count_where select_where
none_named p q [] e h = refl
none_named p q (o ∷ os) e h = ground (arith, h o, none_named p q os)

count-delete-hit :
    (p q : ListOwner → Bool) (os : List ListOwner)
    → ((o : ListOwner) → q o ≡ true → p o ≡ true)
    → count_where q (delete_where p os) ≡ 0
unfolding count_where delete_where
count-delete-hit p q [] h = refl
count-delete-hit p q (o ∷ os) h = ground (arith, h o, count-delete-hit p q os h)

delete-none :
    (tenant id : String) (db : Db)
    → is_some (select_row (list_row tenant id) db.lists) ≡ true
    → count_where (of_list id) (delete_where (owner_in tenant id db) db.list_owners) ≡ 0
delete-none tenant id db there =
    count-delete-hit (owner_in tenant id db) (of_list id) db.list_owners (λ o hit. ground arith)

pub deleted :
    (tenant id : String) (db db' : Db) (u : Unit {0})
    → delete tenant id db ≡ ok (u, db')
    → (is_some (select_row (list_row tenant id) db.lists) ≡ true)
      × (db' ≡ record db {
        list_owners = delete_where (owner_in tenant id db) db.list_owners;
        lists = delete_where (list_row tenant id) db.lists;
      })
unfolding delete
deleted tenant id db db' u h =
    let row = list_row tenant id in
    ground (arith, count-select_none row row db.lists (λ l hit. hit))

pub delete-SingleOwner :
    (tenant id : String) (db db' : Db) (u : Unit {0})
    → delete tenant id db ≡ ok (u, db')
    → SingleOwner db
    → SingleOwner db'
delete-SingleOwner tenant id db db' u h ok_db =
    let (there, now) = deleted tenant id db db' u h in
    let fewer =
      λ (x : String). count-delete-le (owner_in tenant id db) (of_list x) db.list_owners in
    rw now (record {
      at_most_one = λ x. let m = ok_db.at_most_one x in let f = fewer x in omega arith;
      known = λ x missing. elim (Bool-cases (id == x)) [
        | inl e ↦ let is_x : id ≡ x = ground arith in rw (sym is_x) (delete-none tenant id db there)
        | inr e ↦
            let before = ok_db.known x (delete-other x tenant id db.lists e missing) in
            let f = fewer x in omega arith
      ];
    })

-- A list that no row of `owners` names has no owner.
no_owners :
    (tenant id : String) (db : Db)
    → is_some (select_row (list_row tenant id) db.lists) ≡ true
    → owners tenant id db ≡ []
    → count_where (of_list id) db.list_owners ≡ 0
unfolding owners
no_owners tenant id db there h =
    none_named (owner_in tenant id db) (of_list id) db.list_owners h (λ o hit. ground arith)

added :
    (there : Bool) (tenant id user : String) (now : Time) (os : List String) (db db' : Db)
    (u : Unit {0})
    → add_to there tenant id user now os db ≡ ok (u, db')
    → (db' ≡ db)
      ⊎ ((there ≡ true)
          × (os ≡ [])
          × (db' ≡ record db {
            list_owners =
                (record { list_id = id; user_id = user; added_at = now }) ∷ db.list_owners;
          }))
unfolding add_to
added true tenant id user now [] db db' u h = inr (refl, refl, ground arith)
added false tenant id user now [] db db' u h = inl (ground arith)
added there tenant id user now (o ∷ os) db db' u h = inl (ground arith)

missing-row :
    (tenant id : String) (ls : List GiftList)
    → select_row (has_id id) ls ≡ none
    → is_some (select_row (list_row tenant id) ls) ≡ false
unfolding select_row
missing-row tenant id [] h = refl
missing-row tenant id (l ∷ ls) h = ground (arith, missing-row tenant id ls)

pub add-SingleOwner :
    (tenant id user : String) (now : Time) (db db' : Db) (u : Unit {0})
    → add_owner tenant id user now db ≡ ok (u, db')
    → SingleOwner db
    → SingleOwner db'
unfolding add_owner count_where
add-SingleOwner tenant id user now db db' u h ok_db =
    elim (added _ tenant id user now (owners tenant id db) db db' u h) [
      | inl same ↦ rw same ok_db
      | inr (there, nobody, made) ↦
          let alone = no_owners tenant id db there nobody in
          rw made (record {
            at_most_one = λ x. let m = ok_db.at_most_one x in ground (arith, m, alone);
            known = λ x missing. elim (Bool-cases (id == x)) [
              | inl e ↦
                  let is_x : id ≡ x = ground arith in
                  let gone = missing-row tenant id db.lists (rw is_x missing) in
                  absurd (ground arith)
              | inr e ↦ let z = ok_db.known x missing in ground arith
            ];
          })
    ]

pub remove-SingleOwner :
    (tenant id user : String) (db db' : Db) (u : Unit {0})
    → remove_owner tenant id user db ≡ ok (u, db')
    → SingleOwner db
    → SingleOwner db'
unfolding remove_owner
remove-SingleOwner tenant id user db db' u h ok_db =
    let gone = λ (o : ListOwner). owner_in tenant id db o && o.user_id == user in
    let now : db' ≡ record db { list_owners = delete_where gone db.list_owners } = ground arith in
    let fewer = λ (x : String). count-delete-le gone (of_list x) db.list_owners in
    rw now (record {
      at_most_one = λ x. let m = ok_db.at_most_one x in let f = fewer x in omega arith;
      known = λ x missing. let z = ok_db.known x missing in let f = fewer x in omega arith;
    })
