-- ===== src/Sqlstore/Db.antt =====
-- The database as its tables (internal/storage/sqlstore/migrations, baseRepo), and the constraints,
-- locks and encodings that the repositories share (capacity.go, helpers.go, lists.go).
--
-- A statement on a table is a function of `Base.Table`. A transaction that returns an error is rolled
-- back, so an operation is a function from the database to a result which carries the new database
-- only where it is committed.
use yaadegar.Base.{
  String, Bool, ◌&&◌, ◌||◌, ◌==◌, List, [], ◌∷◌, Option, none, some, ℕ, zero, suc, if◌then◌else◌,
  is_some,
}
use yaadegar.Base.Int.{ℤ, pos, negsuc, ◌+ℤ◌, ltb_ℤ}
use yaadegar.Base.Int64.{min_int64, max_int64}
use yaadegar.Base.Table.{select_row}
use yaadegar.Storage.{
  Result, ok, err, not_found, other, Time, GiftList, Item, Reservation, Contribution, MatchState,
}

-- A row of `matches`; the contributions of a match are the rows of `match_contributions`.
pub record MatchRow : Type 0 where
  pub id : String
  pub tenant_id : String
  pub item_id : String
  pub state : MatchState
  pub created_at : Time

pub record MatchLink : Type 0 where
  pub tenant_id : String
  pub match_id : String
  pub contribution_id : String

pub record ListOwner : Type 0 where
  pub list_id : String
  pub user_id : String
  pub added_at : Time

pub record Db : Type 0 where
  pub lists : List GiftList
  pub items : List Item
  pub reservations : List Reservation
  pub contributions : List Contribution
  pub matches : List MatchRow
  pub match_contributions : List MatchLink
  pub list_owners : List ListOwner

-- A write: it fails and changes nothing, or succeeds with a value and the new database.
abbrev pub Op : Type 0 → Type 0
Op A = Db → Result (A × Db)

-- `expectOne`: a statement that affects no row is ErrNotFound.
abbrev pub expect_one : ℕ → Result (Unit {0})
expect_one zero = err not_found
expect_one (suc n) = ok tt

-- `COALESCE(SUM(x), 0)`, scanned into an int64: a sum that does not fit is an error.
abbrev pub sum : List ℤ → ℤ
sum [] = pos 0
sum (x ∷ xs) = x +ℤ sum xs

abbrev pub scan_int64 : ℤ → Result ℤ
scan_int64 z = if ltb_ℤ max_int64 z || ltb_ℤ z min_int64 then err other else ok z

-- The row `id` of the tenant's items.
abbrev pub item_row : String → String → Item → Bool
item_row tenant id it = it.tenant_id == tenant && it.id == id

-- `withItemLock`: the transaction runs only if the item is a row of the tenant.
abbrev pub with_item_lock : {A : Type 0} → String → String → Op A → Op A
with_item_lock tenant item_id fn db =
    if is_some (select_row (item_row tenant item_id) db.items) then fn db else err not_found

-- The -1 of an integer column that stands for "inherit the instance default".
unfoldable pub inherit_from_storage : ℤ → Option ℤ
inherit_from_storage (negsuc zero) = none
inherit_from_storage v = some v

unfoldable pub inherit_to_storage : Option ℤ → ℤ
inherit_to_storage none = negsuc 0
inherit_to_storage (some v) = v
