-- ===== src/Api/Owned.antt =====
-- The owner's surface of internal/api: the check of ownership (`ownsList` of lists.go) and what the
-- handlers of lists.go, items.go and archive.go share.
pub mod Gate
use yaadegar.Base.{String, Bool, true, false, Option, none, some, if◌then◌else◌}
use yaadegar.Storage.{Result, ok, err, Error, GiftList, Item, Account}
use yaadegar.Sqlstore.Lists
use yaadegar.Sqlstore.Items
use yaadegar.World.{World, Flow, Act, stop, value, stop_with, query, ◌>>=◌, ◌>>◌}
use yaadegar.Api.{Reply, on_not_found}

abbrev pub not_an_owner : Reply
not_an_owner = Reply.problem 403 "not an owner of this list"

-- `ownsList`, and the reply to one who does not.
unfoldable pub owns_list : Option Account → String → String → Act Reply (Unit {0})
owns_list none tenant list_id w = (stop Reply.missing_context, w)
owns_list (some a) tenant list_id w =
    if Lists.is_owner tenant list_id a.id w.db then (value tt, w) else (stop not_an_owner, w)

unfoldable pub own_list : Option Account → String → String → Act Reply GiftList
unfolding owns_list
own_list caller tenant id = do
  l ← query (on_not_found 404 "list not found") (Lists.get tenant id)
  owns_list caller tenant id
  λ w. (value l, w)

unfoldable pub own_item : Option Account → String → String → Act Reply Item
unfolding owns_list
own_item caller tenant id = do
  it ← query (on_not_found 404 "item not found") (Items.get tenant id)
  owns_list caller tenant it.list_id
  λ w. (value it, w)

-- A handler of the owner's surface: a refusal, or the body of the response.
abbrev pub for_tenant : {A : Type 0} → Option String → (String → Act Reply A) → Act Reply A
for_tenant none fn w = (stop Reply.missing_context, w)
for_tenant (some tenant) fn w = fn tenant w

-- A field of a merge patch that can be cleared.
pub data Patch (A : Type 0) : Type 0 where
  absent cleared : Patch A
  set_to : A → Patch A

abbrev pub patch : {A : Type 0} → Patch A → Option A → Option A
patch Patch.absent old = old
patch Patch.cleared old = none
patch (Patch.set_to a) old = some a

-- A field that is left as it is where the body has none.
abbrev pub merge : {A : Type 0} → Option A → A → A
merge none old = old
merge (some a) old = a
