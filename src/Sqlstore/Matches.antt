-- ===== src/Sqlstore/Matches.antt =====
-- internal/storage/sqlstore/matches.go and matchexpiry.go: the co-buying matches.
pub mod Found
pub mod Resolution
use yaadegar.Base.{
  String, Bool, true, false, ◌&&◌, ◌==◌, List, [], ◌∷◌, none, some, map, if◌then◌else◌, is_some,
  points_to,
}
use yaadegar.Base.Int.{ltb_ℤ}
use yaadegar.Base.Table.{select_where, select_row, count_where, update_where}
use yaadegar.Storage.{
  Result, ok, ◌>>=◌, ◌>>◌, refuse, or_not_found, other, Time, is_zero_time, Contribution, Match,
  MatchExpiryCandidate, MatchState, ContributionStatus,
}
use yaadegar.Sqlstore.Db.{Db, Op, MatchRow, expect_one, with_item_lock}

abbrev pub is_proposed : MatchState → Bool
is_proposed MatchState.proposed = true
is_proposed _ = false

abbrev pub is_confirmed : ContributionStatus → Bool
is_confirmed ContributionStatus.confirmed = true
is_confirmed _ = false

default_state : MatchState → MatchState
default_state MatchState.unset = MatchState.proposed
default_state s = s

unfoldable pub prep : String → String → Time → Match → Match
unfolding default_state
prep tenant new_id now m = record m {
  id = if m.id == "" then new_id else m.id;
  state = default_state m.state;
  created_at = if is_zero_time m.created_at then now else m.created_at;
  tenant_id = tenant;
}

abbrev pub contribution_row : String → String → Contribution → Bool
contribution_row tenant id c = c.tenant_id == tenant && c.id == id

-- One round of the loop over the contribution ids: PRIMARY KEY (match_id, contribution_id), and the
-- contribution is stamped.
unfoldable pub link_contribution : Match → String → Op (Unit {0})
link_contribution m cid db = do
  refuse
      (is_some
        (select_row (λ l. l.match_id == m.id && l.contribution_id == cid) db.match_contributions))
      other
  ok (
    tt,
    record db {
      match_contributions =
          (record { tenant_id = m.tenant_id; match_id = m.id; contribution_id = cid })
          ∷ db.match_contributions;
      contributions =
          update_where (contribution_row m.tenant_id cid)
            (λ c. record c { match_id = some m.id; status = ContributionStatus.matched })
            db.contributions;
    },
  )

unfoldable pub link_contributions : Match → List String → Op (Unit {0})
unfolding link_contribution
link_contributions m [] db = ok (tt, db)
link_contributions m (cid ∷ cids) db = do
  (_, db') ← link_contribution m cid db
  link_contributions m cids db'

unfoldable pub create : String → String → Time → Match → Op Match
unfolding prep link_contributions
create tenant new_id now m db = do
  let m' = prep tenant new_id now m
  refuse (is_some (select_row (λ r. r.id == m'.id) db.matches)) other
  let row : MatchRow = record {
    id = m'.id;
    tenant_id = m'.tenant_id;
    item_id = m'.item_id;
    state = m'.state;
    created_at = m'.created_at;
  }
  (_, db') ← link_contributions m' m'.contribution_ids (record db { matches = row ∷ db.matches })
  ok (m', db')

-- `ORDER BY contribution_id` is not modelled: the ids come in the order of their insertion, last
-- first.
unfoldable pub contribution_ids : String → String → Db → List String
contribution_ids tenant match_id db =
    map (λ l. l.contribution_id)
      (select_where (λ l. l.tenant_id == tenant && l.match_id == match_id) db.match_contributions)

abbrev pub match_row : String → String → MatchRow → Bool
match_row tenant id m = m.tenant_id == tenant && m.id == id

unfoldable pub scan_match : Db → MatchRow → String → Match
unfolding contribution_ids
scan_match db m tenant = record {
  id = m.id;
  tenant_id = m.tenant_id;
  item_id = m.item_id;
  state = m.state;
  contribution_ids = contribution_ids tenant m.id db;
  created_at = m.created_at;
}

unfoldable pub get : String → String → Db → Result Match
unfolding scan_match
get tenant id db = do
  m ← or_not_found (select_row (match_row tenant id) db.matches)
  ok (scan_match db m tenant)

scan_matches : Db → String → List MatchRow → List Match
unfolding scan_match
scan_matches db tenant [] = []
scan_matches db tenant (m ∷ ms) = scan_match db m tenant ∷ scan_matches db tenant ms

-- `ORDER BY created_at, id` is not modelled: the rows come in the order of the table.
unfoldable pub list_by_item : String → String → Db → Result (List Match)
unfolding scan_matches
list_by_item tenant item db = ok (
    scan_matches db tenant
      (select_where (λ m. m.tenant_id == tenant && m.item_id == item) db.matches))

abbrev pub set_match_state : String → String → MatchState → List MatchRow → List MatchRow
set_match_state tenant id s = update_where (match_row tenant id) (λ m. record m { state = s })

-- `Update` writes the state of the match alone, and reads it back.
unfoldable pub update : String → Match → Op Match
unfolding get
update tenant m db = do
  expect_one (count_where (match_row tenant m.id) db.matches)
  let db' = record db { matches = set_match_state tenant m.id m.state db.matches }
  m' ← get tenant m.id db'
  ok (m', db')

-- `match_id = ?` on a nullable column.
abbrev pub on_match : String → String → Contribution → Bool
on_match tenant match_id c = c.tenant_id == tenant && points_to c.match_id match_id

abbrev pub all_confirmed : List Contribution → Bool
all_confirmed [] = true
all_confirmed (c ∷ cs) = is_confirmed c.status && all_confirmed cs

-- `len(cs) > 0`, and every one of them confirmed.
abbrev pub fully_confirmed : List Contribution → Bool
fully_confirmed [] = false
fully_confirmed (c ∷ cs) = all_confirmed (c ∷ cs)

-- The contributions that a confirm reports, and whether this call completed the match.
pub record Confirmed : Type 0 where
  pub contribs : List Contribution
  pub completed_now : Bool

complete : Bool → String → String → List Contribution → Op Confirmed
complete true tenant match_id cs db = ok (
  record { contribs = cs; completed_now = true },
  record db { matches = set_match_state tenant match_id MatchState.both_confirmed db.matches },
)
complete false tenant match_id cs db = ok (record { contribs = []; completed_now = false }, db)

abbrev pub confirm_row : String → String → String → Contribution → Bool
confirm_row tenant match_id cid c =
    c.tenant_id == tenant && c.id == cid && points_to c.match_id match_id

abbrev pub set_status : ContributionStatus → Contribution → Contribution
set_status s c = record c { status = s }

confirm_proposed : Bool → String → String → String → Op Confirmed
unfolding complete
confirm_proposed false tenant match_id cid db =
    ok (record { contribs = []; completed_now = false }, db)
confirm_proposed true tenant match_id cid db = do
  let hit = confirm_row tenant match_id cid
  expect_one (count_where hit db.contributions)
  let contributions = update_where hit (set_status ContributionStatus.confirmed) db.contributions
  let cs = select_where (on_match tenant match_id) contributions
  complete (fully_confirmed cs) tenant match_id cs (record db { contributions = contributions })

-- The transaction of `ConfirmContribution`, under the item lock.
unfoldable pub confirm_locked : String → String → String → Op Confirmed
unfolding confirm_proposed
confirm_locked tenant match_id cid db = do
  m ← or_not_found (select_row (match_row tenant match_id) db.matches)
  confirm_proposed (is_proposed m.state) tenant match_id cid db

unfoldable pub confirm_contribution : String → String → String → String → Op (Match × Confirmed)
unfolding confirm_locked get
confirm_contribution tenant item_id match_id cid db = do
  (c, db') ← with_item_lock tenant item_id (confirm_locked tenant match_id cid) db
  m ← get tenant match_id db'
  ok ((m, c), db')

abbrev pub spend : Contribution → Contribution
spend c = record c {
  status = ContributionStatus.expired;
  match_action_token_hash = "";
  match_action_token_expires_at = none;
}

expire_proposed : Bool → String → String → Op Bool
expire_proposed false tenant match_id db = ok (false, db)
expire_proposed true tenant match_id db = ok (
  true,
  record db {
    contributions = update_where (on_match tenant match_id) spend db.contributions;
    matches = set_match_state tenant match_id MatchState.expired db.matches;
  },
)

unfoldable pub expire_locked : String → String → Op Bool
unfolding expire_proposed
expire_locked tenant match_id db = do
  m ← or_not_found (select_row (match_row tenant match_id) db.matches)
  expire_proposed (is_proposed m.state) tenant match_id db

unfoldable pub expire_if_proposed : String → String → String → Op Bool
unfolding expire_locked
expire_if_proposed tenant item_id match_id =
    with_item_lock tenant item_id (expire_locked tenant match_id)

-- `ExpiredMatchCandidates`: the proposed matches of every tenant that were created before the cutoff.
abbrev pub to_candidate : MatchRow → MatchExpiryCandidate
to_candidate m = record {
  tenant_id = m.tenant_id;
  match_id = m.id;
  item_id = m.item_id;
  created_at = m.created_at;
}

unfoldable pub expired_match_candidates : Time → Db → List MatchExpiryCandidate
expired_match_candidates before db = map to_candidate (
    select_where (λ m. ltb_ℤ m.created_at before)
      (select_where (λ m. is_proposed m.state) db.matches))
