-- ===== src/Sqlstore/Items.antt =====
-- internal/storage/sqlstore/items.go: the items of one tenant, their archive and their aggregates.
use yaadegar.Base.{
  String, Bool, true, false, not, ◌&&◌, ◌==◌, ◌∷◌, none, some, if◌then◌else◌, is_some, zero, ltb,
}
use yaadegar.Base.Int.{ℤ, pos, ltb_ℤ}
use yaadegar.Base.Table.{select_where, select_row, count_where, update_where, delete_where}
use yaadegar.Storage.{
  Result, ok, ◌>>=◌, ◌>>◌, refuse, or_not_found, other, Time, is_zero_time, Item, Reservation,
}
use yaadegar.Sqlstore.Db.{Db, Op, expect_one, sum, scan_int64, item_row}
use yaadegar.Sqlstore.Reservations.{live_on, open_on, quantities}
use yaadegar.Sqlstore.Contributions.{pledges}

abbrev pub at_least_one : ℤ → ℤ
at_least_one q = if ltb_ℤ q (pos 1) then pos 1 else q

unfoldable pub prep : String → String → Time → Item → Item
prep tenant new_id now it = record it {
  id = if it.id == "" then new_id else it.id;
  quantity_wanted = at_least_one it.quantity_wanted;
  created_at = if is_zero_time it.created_at then now else it.created_at;
  tenant_id = tenant;
}

-- PRIMARY KEY (id).
unfoldable pub create : String → String → Time → Item → Op Item
unfolding prep
create tenant new_id now it db = do
  let it' = prep tenant new_id now it
  refuse (is_some (select_row (λ r. r.id == it'.id) db.items)) other
  ok (it', record db { items = it' ∷ db.items })

unfoldable pub get : String → String → Db → Result Item
get tenant id db = or_not_found (select_row (item_row tenant id) db.items)

-- The columns that `Update` writes.
abbrev pub set_item : Item → Item → Item
set_item it r = record r {
  name = it.name;
  url = it.url;
  image_url = it.image_url;
  price = it.price;
  note = it.note;
  priority = it.priority;
  quantity_wanted = at_least_one it.quantity_wanted;
  allow_cobuy = it.allow_cobuy;
  thank_you_template = it.thank_you_template;
}

unfoldable pub update : String → Item → Op Item
unfolding get
update tenant it db = do
  expect_one (count_where (item_row tenant it.id) db.items)
  let db' = record db { items = update_where (item_row tenant it.id) (set_item it) db.items }
  it' ← get tenant it.id db'
  ok (it', db')

abbrev pub live_row : String → String → Item → Bool
live_row tenant id it = item_row tenant id it && not (is_some it.archived_at)

abbrev pub archived_row : String → String → Item → Bool
archived_row tenant id it = item_row tenant id it && is_some it.archived_at

-- No row affected: the item is gone, or there was nothing to do.
unchanged : String → String → Op Bool
unfolding get
unchanged tenant id db = do _ ← get tenant id db; ok (false, db)

unfoldable pub archive : String → String → Time → Op Bool
unfolding unchanged
archive tenant id at db =
    if ltb zero (count_where (live_row tenant id) db.items)
    then ok (
      true,
      record db {
        items =
            update_where (live_row tenant id) (λ it. record it { archived_at = some at }) db.items;
      },
    )
    else unchanged tenant id db

-- The reservations whose clocks `Unarchive` restarts.
abbrev pub restart_clock : Time → Reservation → Reservation
restart_clock at r = record r { last_activity_at = at; state_at = at }

unfoldable pub unarchive : String → String → Time → Op Bool
unfolding unchanged
unarchive tenant id at db =
    if ltb zero (count_where (archived_row tenant id) db.items)
    then ok (
      true,
      record db {
        items =
            update_where (archived_row tenant id) (λ it. record it { archived_at = none }) db.items;
        reservations = update_where (live_on tenant id) (restart_clock at) db.reservations;
      },
    )
    else unchanged tenant id db

unfoldable pub delete : String → String → Op (Unit {0})
delete tenant id db = do
  expect_one (count_where (item_row tenant id) db.items)
  ok (tt, record db { items = delete_where (item_row tenant id) db.items })

unfoldable pub reserved_quantity : String → String → Db → Result ℤ
reserved_quantity tenant id db =
    scan_int64 (sum (quantities (select_where (live_on tenant id) db.reservations)))

-- The sum of `FundedAmount`. Its currency, the greatest of the pledges', is not modelled.
unfoldable pub funded_amount : String → String → Db → Result ℤ
funded_amount tenant id db =
    scan_int64 (sum (pledges (select_where (open_on tenant id) db.contributions)))
