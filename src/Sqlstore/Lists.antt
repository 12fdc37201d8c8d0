-- ===== src/Sqlstore/Lists.antt =====
-- internal/storage/sqlstore/lists.go: the lists of one tenant and who owns them. `trim` is
-- `strings.TrimSpace`.
pub mod Calls
pub mod Owned
pub mod Sole
pub mod Overlap
pub mod Titled
use yaadegar.Base.{
  String, Bool, true, false, ◌&&◌, ◌||◌, ◌==◌, List, [], ◌∷◌, Option, none, some, map, ltb, zero,
  if◌then◌else◌, is_some,
}
use yaadegar.Base.Table.{select_row, select_where, count_where, update_where, delete_where}
use yaadegar.Storage.{
  Result, ok, err, ◌>>=◌, ◌>>◌, refuse, or_not_found, other, conflict, invalid_list_title, GiftList,
  Visibility, Time, is_zero_time, start_of_day, ReserverTier,
}
use yaadegar.Sqlstore.Db.{Db, Op, ListOwner, expect_one, inherit_from_storage, inherit_to_storage}

-- The owner of a list is no column of it: a read takes it from `list_owners`, of which v1 keeps one
-- row for a list at most. `ORDER BY added_at, user_id` is not modelled, nor is the item count.
unfoldable pub owner_of : String → List ListOwner → String
owner_of id os = elim (select_row (λ o. o.list_id == id) os) [ none ↦ "" | some o ↦ o.user_id ]

unfoldable pub scan_list : Db → GiftList → GiftList
unfolding owner_of
scan_list db l = record l { owner_id = owner_of l.id db.list_owners }

-- `get`, with the condition that its callers append to `tenant_id = ?`.
unfoldable pub get_by : String → (GiftList → Bool) → Db → Result GiftList
unfolding scan_list
get_by tenant cond db = do
  l ← or_not_found (select_row (λ l. l.tenant_id == tenant && cond l) db.lists)
  ok (scan_list db l)

unfoldable pub get : String → String → Db → Result GiftList
unfolding get_by
get tenant id db = get_by tenant (λ l. l.id == id) db

unfoldable pub get_by_slug : String → String → Db → Result GiftList
unfolding get_by
get_by_slug tenant slug db = get_by tenant (λ l. l.share_slug == slug) db

unfoldable pub stored_title : (String → String) → String → Result String
stored_title trim title = if trim title == "" then err invalid_list_title else ok (trim title)

default_visibility : Visibility → Visibility
default_visibility Visibility.unset = Visibility.private
default_visibility v = v

-- An unknown override is read back as none.
stored_tier : Option ReserverTier → Option ReserverTier
stored_tier (some ReserverTier.unset) = none
stored_tier t = t

stored_date : Option Time → Option Time
stored_date none = none
stored_date (some t) = some (start_of_day t)

-- The columns as they are read back: a date without its time of day, and -1 for an inherited number.
unfoldable pub to_columns : GiftList → GiftList
unfolding stored_tier stored_date inherit_from_storage inherit_to_storage
to_columns l = record l {
  event_date = stored_date l.event_date;
  decay_days = inherit_from_storage (inherit_to_storage l.decay_days);
  reserver_tier = stored_tier l.reserver_tier;
  reserver_confirm_window_minutes =
      inherit_from_storage (inherit_to_storage l.reserver_confirm_window_minutes);
}

unfoldable pub prep : String → String → String → String → Time → String → GiftList → GiftList
unfolding default_visibility
prep tenant title new_id slug now owner l = record l {
  title = title;
  id = if l.id == "" then new_id else l.id;
  share_slug = slug;
  visibility = default_visibility l.visibility;
  created_at = if is_zero_time l.created_at then now else l.created_at;
  tenant_id = tenant;
  owner_id = owner;
}

minted : String → Option String → Result String
minted slug none = if slug == "" then err other else ok slug
minted slug (some new) = ok (if slug == "" then new else slug)

-- PRIMARY KEY (id), UNIQUE (tenant_id, share_slug).
abbrev pub clashes : GiftList → GiftList → Bool
clashes l r = r.id == l.id || r.tenant_id == l.tenant_id && r.share_slug == l.share_slug

-- The statement leaves three columns to their defaults.
abbrev pub with_defaults : GiftList → GiftList
with_defaults l = record l { allow_cobuy = true; thank_you_template = ""; description = "" }

unfoldable pub insert : GiftList → String → Op GiftList
unfolding to_columns
insert l owner db = do
  refuse (is_some (select_row (clashes l) db.lists)) conflict
  refuse (is_some (select_row (λ o. o.list_id == l.id && o.user_id == owner) db.list_owners)) other
  ok (
    record l { allow_cobuy = true },
    record db {
      lists = to_columns (with_defaults l) ∷ db.lists;
      list_owners =
          (record { list_id = l.id; user_id = owner; added_at = l.created_at }) ∷ db.list_owners;
    },
  )

unfoldable pub create :
    (String → String) → String → String → Option String → Time → GiftList → String → Op GiftList
unfolding stored_title minted prep insert
create trim tenant new_id new_slug now l owner db = do
  title ← stored_title trim l.title
  slug ← minted l.share_slug new_slug
  insert (prep tenant title new_id slug now owner l) owner db

abbrev pub list_row : String → String → GiftList → Bool
list_row tenant id l = l.tenant_id == tenant && l.id == id

-- The columns that `Update` writes.
abbrev pub set_list : GiftList → GiftList → GiftList
set_list l r = record r {
  title = l.title;
  visibility = l.visibility;
  event_date = l.event_date;
  decay_days = l.decay_days;
  is_active = l.is_active;
  reserver_tier = l.reserver_tier;
  reserver_confirm_window_minutes = l.reserver_confirm_window_minutes;
  allow_cobuy = l.allow_cobuy;
  thank_you_template = l.thank_you_template;
  description = l.description;
}

unfoldable pub update : (String → String) → String → GiftList → Op GiftList
unfolding stored_title to_columns get
update trim tenant l db = do
  title ← stored_title trim l.title
  expect_one (count_where (list_row tenant l.id) db.lists)
  let row = to_columns (record l { title = title })
  let db' = record db { lists = update_where (list_row tenant l.id) (set_list row) db.lists }
  l' ← get tenant l.id db'
  ok (l', db')

-- `list_id IN (SELECT id FROM lists WHERE tenant_id = ? AND id = ?)`
abbrev pub owner_in : String → String → Db → ListOwner → Bool
owner_in tenant id db o = o.list_id == id && is_some (select_row (list_row tenant id) db.lists)

unfoldable pub delete : String → String → Op (Unit {0})
delete tenant id db = do
  expect_one (count_where (list_row tenant id) db.lists)
  ok (
    tt,
    record db {
      list_owners = delete_where (owner_in tenant id db) db.list_owners;
      lists = delete_where (list_row tenant id) db.lists;
    },
  )

unfoldable pub is_owner : String → String → String → Db → Bool
is_owner tenant id user db =
    ltb zero (count_where (λ o. owner_in tenant id db o && o.user_id == user) db.list_owners)

unfoldable pub owners : String → String → Db → List String
owners tenant id db = map (λ o. o.user_id) (select_where (owner_in tenant id db) db.list_owners)

-- The loop of `AddOwner`, the test after it and the insert, with PRIMARY KEY (list_id, user_id).
add_to : Bool → String → String → String → Time → List String → Db → Result (Unit {0} × Db)
add_to false tenant id user now [] db = ok (tt, db)
add_to true tenant id user now [] db = do
  refuse (is_some (select_row (λ o. o.list_id == id && o.user_id == user) db.list_owners)) other
  ok (
    tt,
    record db {
      list_owners = (record { list_id = id; user_id = user; added_at = now }) ∷ db.list_owners;
    },
  )
add_to there tenant id user now (o ∷ os) db =
    if is_some (select_row (λ x. x == user) (o ∷ os)) then ok (tt, db) else err conflict

-- What follows the read of the owners, which is a statement of its own.
unfoldable pub add_after : List String → String → String → String → Time → Op (Unit {0})
unfolding add_to
add_after os tenant id user now db =
    add_to (is_some (select_row (list_row tenant id) db.lists)) tenant id user now os db

-- `AddOwner` with no other write between its read and its insert, which no lock excludes.
unfoldable pub add_owner : String → String → String → Time → Op (Unit {0})
unfolding add_after owners
add_owner tenant id user now db = add_after (owners tenant id db) tenant id user now db

unfoldable pub remove_owner : String → String → String → Op (Unit {0})
remove_owner tenant id user db = ok (
  tt,
  record db {
    list_owners = delete_where (λ o. owner_in tenant id db o && o.user_id == user) db.list_owners;
  },
)
