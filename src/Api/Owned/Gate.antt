-- ===== src/Api/Owned/Gate.antt =====
-- Who can change a list and its items: the owner's handlers of internal/api/lists.go, items.go and
-- archive.go, together.
use yaadegar.Base.{String, Bool, false, ◌≡◌, refl, Option, none, some, arith, inl, inr}
use yaadegar.Storage.{Result-cases, ok, err, Account}
use yaadegar.Sqlstore.Db.{Db}
use yaadegar.Sqlstore.Lists
use yaadegar.Sqlstore.Items
use yaadegar.World.{World, Flow, stop}
use yaadegar.Api.{Runtime, Reply, on_not_found}
use yaadegar.Api.Owned.{owns_list, own_list, own_item, not_an_owner}
use yaadegar.Api.Lists.{UpdateListBody, update_list, update_with, delete_list}
use yaadegar.Api.Items.{
  CreateItemBody, UpdateItemBody, create_item, create_on, update_item, update_on, delete_item,
}
use yaadegar.Api.Archive.{archive_item, archive_own, unarchive_item, unarchive_own}

pub data OwnerRequest : Type 0 where
  updates_list : String → Option UpdateListBody → OwnerRequest
  deletes_list : String → OwnerRequest
  creates_item : String → Option CreateItemBody → OwnerRequest
  updates_item : String → Option UpdateItemBody → OwnerRequest
  deletes_item archives_item unarchives_item : String → OwnerRequest

-- What the world is after a request.
unfoldable pub serve : Runtime → Option String → Option Account → OwnerRequest → World → World
serve rt tenant caller (OwnerRequest.updates_list id b) w = (update_list rt tenant caller id b w).1
serve rt tenant caller (OwnerRequest.deletes_list id) w = (delete_list tenant caller id w).1
serve rt tenant caller (OwnerRequest.creates_item id b) w = (create_item rt tenant caller id b w).1
serve rt tenant caller (OwnerRequest.updates_item id b) w = (update_item tenant caller id b w).1
serve rt tenant caller (OwnerRequest.deletes_item id) w = (delete_item tenant caller id w).1
serve rt tenant caller (OwnerRequest.archives_item id) w = (archive_item rt tenant caller id w).1
serve rt tenant caller (OwnerRequest.unarchives_item id) w =
    (unarchive_item rt tenant caller id w).1

-- The caller owns the list, or the list that the item is on.
abbrev pub owns : String → Option Account → String → Db → Bool
owns tenant none id db = false
owns tenant (some a) id db = Lists.is_owner tenant id a.id db

abbrev pub owns_item : String → Option Account → String → Db → Bool
owns_item tenant caller id db = elim (Items.get tenant id db) [
  | err e ↦ false
  | ok it ↦ owns tenant caller it.list_id db
]

abbrev pub may : String → Option Account → OwnerRequest → Db → Bool
may tenant caller (OwnerRequest.updates_list id b) db = owns tenant caller id db
may tenant caller (OwnerRequest.deletes_list id) db = owns tenant caller id db
may tenant caller (OwnerRequest.creates_item id b) db = owns tenant caller id db
may tenant caller (OwnerRequest.updates_item id b) db = owns_item tenant caller id db
may tenant caller (OwnerRequest.deletes_item id) db = owns_item tenant caller id db
may tenant caller (OwnerRequest.archives_item id) db = owns_item tenant caller id db
may tenant caller (OwnerRequest.unarchives_item id) db = owns_item tenant caller id db

-- The lookup of one who is no owner stops, and changes nothing.
abbrev Stops : {A : Type 0} → Flow Reply A × World → World → Type 0
Stops m w = (r : Reply) × (m ≡ (stop r, w))

owns_list-Stops :
    (caller : Option Account) (tenant id : String) (w : World)
    → owns tenant caller id w.db ≡ false
    → Stops (owns_list caller tenant id w) w
unfolding owns_list
owns_list-Stops none tenant id w h = (Reply.missing_context, refl)
owns_list-Stops (some a) tenant id w h = (not_an_owner, rw h refl)

own_list-Stops :
    (caller : Option Account) (tenant id : String) (w : World)
    → owns tenant caller id w.db ≡ false
    → Stops (own_list caller tenant id w) w
unfolding own_list
own_list-Stops caller tenant id w h =
    let (r, stopped) = owns_list-Stops caller tenant id w h in
    elim (Result-cases (Lists.get tenant id w.db)) [
      | inl (e, f) ↦ (on_not_found 404 "list not found" e, ground arith)
      | inr (l, f) ↦ (r, ground (arith, stopped))
    ]

own_item-Stops :
    (caller : Option Account) (tenant id : String) (w : World)
    → owns_item tenant caller id w.db ≡ false
    → Stops (own_item caller tenant id w) w
unfolding own_item
own_item-Stops caller tenant id w h = elim (Result-cases (Items.get tenant id w.db)) [
  | inl (e, f) ↦ (on_not_found 404 "item not found" e, ground arith)
  | inr (it, f) ↦
      let (r, stopped) = owns_list-Stops caller tenant it.list_id w (ground arith) in
      (r, ground (arith, stopped))
]

-- A request of one who does not own the list that it is about, nor the list of the item that it is
-- about, changes no row and sends no mail. Nor does a request for which nobody is
-- signed in.
pub serve-refuses :
    (rt : Runtime) (tenant : String) (caller : Option Account) (q : OwnerRequest) (w : World)
    → may tenant caller q w.db ≡ false
    → serve rt (some tenant) caller q w ≡ w
unfolding serve update_list update_with delete_list create_item create_on update_item update_on
    delete_item archive_item archive_own unarchive_item unarchive_own
serve-refuses rt tenant caller (OwnerRequest.updates_list id none) w h = refl
serve-refuses rt tenant caller (OwnerRequest.updates_list id (some b)) w h =
    let (r, stopped) = own_list-Stops caller tenant id w h in ground (arith, stopped)
serve-refuses rt tenant caller (OwnerRequest.deletes_list id) w h =
    let (r, stopped) = own_list-Stops caller tenant id w h in ground (arith, stopped)
serve-refuses rt tenant caller (OwnerRequest.creates_item id none) w h = refl
serve-refuses rt tenant caller (OwnerRequest.creates_item id (some b)) w h =
    let (r, stopped) = own_list-Stops caller tenant id w h in ground (arith, stopped)
serve-refuses rt tenant caller (OwnerRequest.updates_item id none) w h = refl
serve-refuses rt tenant caller (OwnerRequest.updates_item id (some b)) w h =
    let (r, stopped) = own_item-Stops caller tenant id w h in ground (arith, stopped)
serve-refuses rt tenant caller (OwnerRequest.deletes_item id) w h =
    let (r, stopped) = own_item-Stops caller tenant id w h in ground (arith, stopped)
serve-refuses rt tenant caller (OwnerRequest.archives_item id) w h =
    let (r, stopped) = own_item-Stops caller tenant id w h in ground (arith, stopped)
serve-refuses rt tenant caller (OwnerRequest.unarchives_item id) w h =
    let (r, stopped) = own_item-Stops caller tenant id w h in ground (arith, stopped)
