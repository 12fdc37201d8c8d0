-- ===== src/Sqlstore/Contributions.antt =====
-- internal/storage/sqlstore/contributions.go: the co-buying pledges of one tenant.
use yaadegar.Base.{
  String, Bool, ◌&&◌, ◌||◌, ◌==◌, List, ◌∷◌, Option, map, if◌then◌else◌, ltb, zero, is_some,
}
use yaadegar.Base.Int.{ℤ, ltb_ℤ}
use yaadegar.Base.Int64.{add64}
use yaadegar.Base.Table.{select_where, select_row, count_where, update_where, delete_where}
use yaadegar.Storage.{
  Result, ok, err, ◌>>=◌, ◌>>◌, refuse, or_not_found, not_found, conflict, capacity_exceeded,
  cross_track_conflict, Time, is_zero_time, Contribution, ContributionStatus,
}
use yaadegar.Sqlstore.Db.{Db, Op, expect_one, sum, scan_int64, with_item_lock}
use yaadegar.Sqlstore.Reservations.{live_on, open_on}

default_status : ContributionStatus → ContributionStatus
default_status ContributionStatus.unset = ContributionStatus.pending
default_status s = s

unfoldable pub prep : String → String → Time → Contribution → Contribution
unfolding default_status
prep tenant new_id now c = record c {
  id = if c.id == "" then new_id else c.id;
  status = default_status c.status;
  created_at = if is_zero_time c.created_at then now else c.created_at;
  tenant_id = tenant;
}

-- PRIMARY KEY (id), UNIQUE (tenant_id, token_hash).
abbrev pub clashes : Contribution → Contribution → Bool
clashes c r = r.id == c.id || r.tenant_id == c.tenant_id && r.token_hash == c.token_hash

-- The 32 bits of an amount in PostgreSQL are not modelled.
unfoldable pub insert : Contribution → Op Contribution
insert c db = do
  refuse (is_some (select_row (clashes c) db.contributions)) conflict
  ok (c, record db { contributions = c ∷ db.contributions })

unfoldable pub create : String → String → Time → Contribution → Op Contribution
unfolding insert prep
create tenant new_id now c db = insert (prep tenant new_id now c) db

abbrev pub pledges : List Contribution → List ℤ
pledges = map (λ c. c.pledged.amount_minor)

unfoldable pub create_checked : String → Contribution → ℤ → Op Contribution
unfolding insert
create_checked tenant c price_minor db = do
  let reserved = count_where (live_on tenant c.item_id) db.reservations
  refuse (ltb zero reserved) cross_track_conflict
  total ← scan_int64 (sum (pledges (select_where (open_on tenant c.item_id) db.contributions)))
  refuse (ltb_ℤ price_minor (add64 total c.pledged.amount_minor)) capacity_exceeded
  insert c db

unfoldable pub create_within_capacity : String → String → Time → Contribution → ℤ → Op Contribution
unfolding prep create_checked
create_within_capacity tenant new_id now c price_minor db =
    let c' = prep tenant new_id now c in
    with_item_lock tenant c'.item_id (create_checked tenant c' price_minor) db

unfoldable pub get_by : String → (Contribution → Bool) → Db → Result Contribution
get_by tenant cond db =
    or_not_found (select_row (λ c. c.tenant_id == tenant && cond c) db.contributions)

unfoldable pub get : String → String → Db → Result Contribution
unfolding get_by
get tenant id db = get_by tenant (λ c. c.id == id) db

unfoldable pub by_token_hash : String → String → Db → Result Contribution
unfolding get_by
by_token_hash tenant hash db = get_by tenant (λ c. c.token_hash == hash) db

unfoldable pub by_match_action_token_hash : String → String → Db → Result Contribution
unfolding get_by
by_match_action_token_hash tenant hash db =
    if hash == "" then err not_found else get_by tenant (λ c. c.match_action_token_hash == hash) db

-- `ORDER BY created_at, id` is not modelled: the rows come in the order of the table.
unfoldable pub list_by_item : String → String → Db → Result (List Contribution)
list_by_item tenant item db =
    ok (select_where (λ c. c.tenant_id == tenant && c.item_id == item) db.contributions)

abbrev pub row : String → String → Contribution → Bool
row tenant id c = c.tenant_id == tenant && c.id == id

-- `UPDATE contributions SET … WHERE tenant_id = ? AND id = ?`, of which one row must be hit.
unfoldable pub update_row : String → String → (Contribution → Contribution) → Op (Unit {0})
update_row tenant id set db = do
  expect_one (count_where (row tenant id) db.contributions)
  ok (tt, record db { contributions = update_where (row tenant id) set db.contributions })

-- `Update` writes the status and the match of the row, and reads the row back.
unfoldable pub update : String → Contribution → Op Contribution
unfolding update_row get
update tenant c db = do
  (_, db') ← update_row tenant c.id (λ r. record r { status = c.status; match_id = c.match_id }) db
  c' ← get tenant c.id db'
  ok (c', db')

-- `SetMatchActionToken` writes the scoped token alone.
unfoldable pub set_match_action_token : String → String → String → Option Time → Op (Unit {0})
unfolding update_row
set_match_action_token tenant id hash expires_at =
    update_row tenant id
      λ r. record r { match_action_token_hash = hash; match_action_token_expires_at = expires_at }

unfoldable pub delete : String → String → Op (Unit {0})
delete tenant id db = do
  expect_one (count_where (row tenant id) db.contributions)
  ok (tt, record db { contributions = delete_where (row tenant id) db.contributions })
