-- ===== src/Api/Items.antt =====
-- internal/api/items.go: how an owner creates, changes and deletes an item, and the state that an item
-- shows. `ListItems` is not modelled.
use yaadegar.Base.{String, Bool, ◌&&◌, Option, none, some, if◌then◌else◌}
use yaadegar.Base.Int.{ℤ, pos, ltb_ℤ, leb_ℤ}
use yaadegar.Storage.{other, Time, zero_time, Money, Item, Account, Availability}
use yaadegar.Sqlstore.Items
use yaadegar.World.{Act, stop, give, query, write, ◌>>=◌, ◌>>◌}
use yaadegar.Api.{Runtime, Reply, on_not_found}
use yaadegar.Api.Owned.{own_list, own_item, for_tenant, Patch, patch, merge}

-- What an item shows of itself to its owner: a state and a count, and nobody's name.
pub record ItemView : Type 0 where
  pub id : String
  pub list_id : String
  pub name : String
  pub url : Option String
  pub image_url : Option String
  pub price : Option Money
  pub note : Option String
  pub priority : ℤ
  pub quantity_wanted : ℤ
  pub availability : Availability
  pub reserved_quantity : ℤ
  pub allow_cobuy : Option Bool
  pub thank_you_template : Option String
  pub archived_at : Option Time

unfoldable pub to_gen_item : Item → Availability → ℤ → ItemView
to_gen_item it avail reserved = record {
  id = it.id;
  list_id = it.list_id;
  name = it.name;
  url = it.url;
  image_url = it.image_url;
  price = it.price;
  note = it.note;
  priority = it.priority;
  quantity_wanted = it.quantity_wanted;
  availability = avail;
  reserved_quantity = reserved;
  allow_cobuy = it.allow_cobuy;
  thank_you_template = it.thank_you_template;
  archived_at = it.archived_at;
}

unfoldable pub derive_availability : ℤ → ℤ → ℤ → Availability
derive_availability wanted reserved funded =
    if ltb_ℤ (pos 0) funded
    then Availability.co_buying
    else (if ltb_ℤ (pos 0) wanted && leb_ℤ wanted reserved
        then Availability.reserved
        else Availability.available)

-- `itemState`, shown with the item.
unfoldable pub show_item : String → Item → Act Reply ItemView
unfolding to_gen_item derive_availability
show_item tenant it = do
  reserved ← query Reply.failed (Items.reserved_quantity tenant it.id)
  funded ← query Reply.failed (Items.funded_amount tenant it.id)
  give (to_gen_item it (derive_availability it.quantity_wanted reserved funded) reserved)

pub record CreateItemBody : Type 0 where
  pub name : String
  pub url : Option String
  pub image_url : Option String
  pub price : Option Money
  pub note : Option String
  pub priority : Option ℤ
  pub quantity_wanted : Option ℤ
  pub allow_cobuy : Option Bool
  pub thank_you_template : Option String

pub record UpdateItemBody : Type 0 where
  pub name : Option String
  pub url : Option String
  pub image_url : Option String
  pub price : Option Money
  pub note : Option String
  pub priority : Option ℤ
  pub quantity_wanted : Option ℤ
  pub allow_cobuy : Patch Bool
  pub thank_you_template : Patch String

-- `merge` with the default of `derefOr`.
unfoldable pub new_item : String → CreateItemBody → Item
new_item list_id b = record {
  id = "";
  tenant_id = "";
  list_id = list_id;
  name = b.name;
  url = b.url;
  image_url = b.image_url;
  price = b.price;
  note = b.note;
  priority = merge b.priority (pos 0);
  quantity_wanted = merge b.quantity_wanted (pos 1);
  allow_cobuy = b.allow_cobuy;
  thank_you_template = b.thank_you_template;
  created_at = zero_time;
  archived_at = none;
}

unfoldable pub create_on :
    Runtime → String → Option Account → String → CreateItemBody → Act Reply ItemView
unfolding new_item show_item
create_on rt tenant caller list_id b = do
  l ← own_list caller tenant list_id
  it ← write Reply.failed (Items.create tenant rt.new_id rt.now (new_item list_id b))
  show_item tenant it

unfoldable pub create_item :
    Runtime → Option String → Option Account → String → Option CreateItemBody → Act Reply ItemView
unfolding create_on
create_item rt none caller list_id body w = (stop Reply.missing_context, w)
create_item rt (some tenant) caller list_id none w =
    (stop (Reply.problem 400 "missing request body"), w)
create_item rt (some tenant) caller list_id (some b) w = create_on rt tenant caller list_id b w

-- A pointer field of the body, which is taken whole where it is present.
abbrev pub merge_optional : {A : Type 0} → Option A → Option A → Option A
merge_optional none old = old
merge_optional (some a) old = some a

unfoldable pub merge_item : UpdateItemBody → Item → Item
merge_item b it = record it {
  name = merge b.name it.name;
  url = merge_optional b.url it.url;
  image_url = merge_optional b.image_url it.image_url;
  price = merge_optional b.price it.price;
  note = merge_optional b.note it.note;
  priority = merge b.priority it.priority;
  quantity_wanted = merge b.quantity_wanted it.quantity_wanted;
  allow_cobuy = patch b.allow_cobuy it.allow_cobuy;
  thank_you_template = patch b.thank_you_template it.thank_you_template;
}

unfoldable pub update_on : String → Option Account → String → UpdateItemBody → Act Reply ItemView
unfolding merge_item show_item
update_on tenant caller id b = do
  it ← own_item caller tenant id
  it' ← write Reply.failed (Items.update tenant (merge_item b it))
  show_item tenant it'

-- A request without a body is an error here, not a 400.
unfoldable pub update_item :
    Option String → Option Account → String → Option UpdateItemBody → Act Reply ItemView
unfolding update_on
update_item none caller id body w = (stop Reply.missing_context, w)
update_item (some tenant) caller id none w = (stop (Reply.failed other), w)
update_item (some tenant) caller id (some b) w = update_on tenant caller id b w

unfoldable pub delete_item : Option String → Option Account → String → Act Reply Reply
delete_item tenant caller id = for_tenant tenant λ t. own_item caller t id >>= λ it.
    write (on_not_found 404 "item not found") (Items.delete t id) >> give Reply.no_content
