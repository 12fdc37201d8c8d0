-- ===== src/Sqlstore/Matches/Resolution.antt =====
-- How a match is resolved: `ConfirmContribution` of matches.go and `ExpireIfProposed` of
-- matchexpiry.go, in any order and any number.
use yaadegar.Base.{
  String, Bool, true, false, ◌&&◌, ◌==◌, ◌≡◌, refl, List, [], ◌∷◌, Option, some, arith, Bool-cases,
  Option-cases, inl, inr, is_some,
}
use yaadegar.Base.Table.{select_row, select_where, count_where, update_where}
use yaadegar.Base.Table.Count.{
  select_row-disjoint, select_where-disjoint, select_row-update, select_row-holds, count-update_all,
}
use yaadegar.Storage.{Result, ok, err, Contribution, Match, MatchState, is_open}
use yaadegar.Sqlstore.Db.{Db, MatchRow, item_row}
use yaadegar.Sqlstore.Matches.{
  Confirmed, confirm_contribution, confirm_locked, confirm_proposed, complete, expire_if_proposed,
  expire_locked, expire_proposed, get, match_row, on_match, set_match_state, is_proposed,
  fully_confirmed, spend,
}

-- The match is a row of the tenant that is proposed no longer.
abbrev pub Resolved : String → String → Db → Type 0
Resolved tenant match_id db =
    (m : MatchRow) × (select_row (match_row tenant match_id) db.matches ≡ some m)
    × (is_proposed m.state ≡ false)

-- The two calls that may find a proposed match.
pub data Call : Type 0 where
  confirms : String → Call
  expires : Call

-- What a call leaves, a failed one included.
after_confirms : Db → Result ((Match × Confirmed) × Db) → Db
after_confirms db (ok (_, db')) = db'
after_confirms db (err e) = db

abbrev pub after_expires : Db → Result (Bool × Db) → Db
after_expires db (ok (_, db')) = db'
after_expires db (err e) = db

pub perform : String → String → String → Call → Db → Db
unfolding after_confirms
perform tenant item match_id (Call.confirms cid) db =
    after_confirms db (confirm_contribution tenant item match_id cid db)
perform tenant item match_id Call.expires db =
    after_expires db (expire_if_proposed tenant item match_id db)

pub perform_all : String → String → String → List Call → Db → Db
unfolding perform
perform_all tenant item match_id [] db = db
perform_all tenant item match_id (c ∷ cs) db =
    perform_all tenant item match_id cs (perform tenant item match_id c db)

confirm-Resolved :
    (tenant item match_id cid : String) (db : Db)
    → Resolved tenant match_id db
    → after_confirms db (confirm_contribution tenant item match_id cid db) ≡ db
unfolding after_confirms confirm_contribution confirm_locked confirm_proposed get
confirm-Resolved tenant item match_id cid db (m, found, e) = ground arith

pub expire-Resolved :
    (tenant item match_id : String) (db : Db)
    → Resolved tenant match_id db
    → after_expires db (expire_if_proposed tenant item match_id db) ≡ db
unfolding expire_if_proposed expire_locked expire_proposed
expire-Resolved tenant item match_id db (m, found, e) = ground arith

-- An expiry of another match does not touch this one, nor the pledges on it.
other_key :
    (tenant match_id tenant' match_id' : String) (x : MatchRow)
    → (tenant == tenant' && match_id == match_id') ≡ false
    → match_row tenant' match_id' x ≡ true
    → match_row tenant match_id x ≡ false
other_key tenant match_id tenant' match_id' x ne h = ground arith

other_pledge :
    (tenant match_id tenant' match_id' : String) (c : Contribution)
    → (tenant == tenant' && match_id == match_id') ≡ false
    → on_match tenant' match_id' c ≡ true
    → on_match tenant match_id c ≡ false
other_pledge tenant match_id tenant' match_id' c ne h = ground arith

-- What the sweep leaves of a match and of its pledges.
abbrev pub view : String → String → Db → Option MatchRow × List Contribution
view tenant match_id db = (
  select_row (match_row tenant match_id) db.matches,
  select_where (on_match tenant match_id) db.contributions,
)

expired_view :
    (tenant match_id tenant' match_id' : String) (db : Db)
    → (tenant == tenant' && match_id == match_id') ≡ false
    → view tenant match_id (record db {
      contributions = update_where (on_match tenant' match_id') spend db.contributions;
      matches = set_match_state tenant' match_id' MatchState.expired db.matches;
    })
      ≡ view tenant match_id db
expired_view tenant match_id tenant' match_id' db ne =
    rw
      (
        select_row-disjoint (match_row tenant match_id) (match_row tenant' match_id')
            (λ x. record x { state = MatchState.expired }) db.matches
            (λ x. other_key tenant match_id tenant' match_id' x ne) (λ x. refl),
        select_where-disjoint (on_match tenant match_id) (on_match tenant' match_id') spend
            db.contributions (λ c. other_pledge tenant match_id tenant' match_id' c ne) (λ c. refl),
      )
      refl

pub expire-view :
    (tenant match_id tenant' item' match_id' : String) (db : Db)
    → (tenant == tenant' && match_id == match_id') ≡ false
    → view tenant match_id (after_expires db (expire_if_proposed tenant' item' match_id' db))
      ≡ view tenant match_id db
unfolding expire_if_proposed expire_locked expire_proposed
expire-view tenant match_id tenant' item' match_id' db ne =
    ground (arith, expired_view tenant match_id tenant' match_id' db ne)

-- A match is resolved once: when it is no longer proposed, no sequence of confirmations and expiries
-- of it, whoever makes them and in whatever order, changes the database.
pub perform_all-Resolved :
    (tenant item match_id : String) (cs : List Call) (db : Db)
    → Resolved tenant match_id db
    → perform_all tenant item match_id cs db ≡ db
unfolding perform_all perform
perform_all-Resolved tenant item match_id [] db h = refl
perform_all-Resolved tenant item match_id (Call.confirms cid ∷ cs) db h =
    rw (confirm-Resolved tenant item match_id cid db h)
      (perform_all-Resolved tenant item match_id cs db h)
perform_all-Resolved tenant item match_id (Call.expires ∷ cs) db h =
    rw (expire-Resolved tenant item match_id db h)
      (perform_all-Resolved tenant item match_id cs db h)

pub set_state-found :
    (tenant match_id : String) (s : MatchState) (ms : List MatchRow) (m : MatchRow)
    → select_row (match_row tenant match_id) ms ≡ some m
    → select_row (match_row tenant match_id) (set_match_state tenant match_id s ms)
      ≡ some (record m { state = s })
set_state-found tenant match_id s ms m found =
    let is_it = match_row tenant match_id in
    let holds = select_row-holds is_it ms m found in
    let after =
      select_row-update is_it is_it (λ x. record x { state = s }) ms m (λ y. refl) found in
    rw (after, holds) refl

spend-closed :
    (tenant match_id : String) (cs : List Contribution)
    → count_where
        (λ c. on_match tenant match_id c && is_open c.status)
        (update_where (on_match tenant match_id) spend cs)
      ≡ 0
spend-closed tenant match_id cs =
    count-update_all (on_match tenant match_id) _ spend cs (λ c h. rw h refl) (λ c h. rw h refl)

-- An expiry that is made resolves the match, and leaves no open pledge on it.
pub expire_if_proposed-Resolved :
    (tenant item match_id : String) (db db' : Db)
    → expire_if_proposed tenant item match_id db ≡ ok (true, db')
    → Resolved tenant match_id db'
      × (count_where (λ c. on_match tenant match_id c && is_open c.status) db'.contributions ≡ 0)
unfolding expire_if_proposed expire_locked expire_proposed
expire_if_proposed-Resolved tenant item match_id db db' h =
    elim (Option-cases (select_row (match_row tenant match_id) db.matches)) [
      | inl e ↦ absurd (ground arith)
      | inr (m, e) ↦
          let found = set_state-found tenant match_id MatchState.expired db.matches m e in
          let closed = spend-closed tenant match_id db.contributions in
          let now : db' ≡ record db {
            contributions = update_where (on_match tenant match_id) spend db.contributions;
            matches = set_match_state tenant match_id MatchState.expired db.matches;
          } =
            ground arith in
          rw now ((record m { state = MatchState.expired }, found, refl), closed)
    ]

-- The rest of a confirm whose match is proposed.
proposed_completes :
    (tenant match_id cid : String) (db db' : Db) (cf : Confirmed) (m : MatchRow)
    → select_row (match_row tenant match_id) db.matches ≡ some m
    → confirm_proposed (is_proposed m.state) tenant match_id cid db ≡ ok (cf, db')
    → cf.completed_now ≡ true
    → (db'.matches ≡ set_match_state tenant match_id MatchState.both_confirmed db.matches)
      × (cf.contribs ≡ select_where (on_match tenant match_id) db'.contributions)
      × (fully_confirmed cf.contribs ≡ true)
      × (is_proposed m.state ≡ true)
unfolding confirm_proposed complete
proposed_completes tenant match_id cid db db' cf m found h done = ground arith

locked_completes :
    (tenant item match_id cid : String) (db db' : Db) (cf : Confirmed) (m' : Match)
    → confirm_contribution tenant item match_id cid db ≡ ok ((m', cf), db')
    → cf.completed_now ≡ true
    → (m : MatchRow) × (select_row (match_row tenant match_id) db.matches ≡ some m)
      × (confirm_proposed (is_proposed m.state) tenant match_id cid db ≡ ok (cf, db'))
unfolding confirm_contribution confirm_locked get
locked_completes tenant item match_id cid db db' cf m' h done =
    elim (Option-cases (select_row (match_row tenant match_id) db.matches)) [
      | inl e ↦ absurd (ground arith)
      | inr (m, e) ↦ (m, e, ground arith)
    ]

-- The one confirm that reports the match complete finds every pledge on it confirmed, reports these
-- pledges, of which there is one at least, and resolves the match.
pub confirm_contribution-completes :
    (tenant item match_id cid : String) (db db' : Db) (cf : Confirmed) (m' : Match)
    → confirm_contribution tenant item match_id cid db ≡ ok ((m', cf), db')
    → cf.completed_now ≡ true
    → (cf.contribs ≡ select_where (on_match tenant match_id) db'.contributions)
      × (fully_confirmed cf.contribs ≡ true)
      × Resolved tenant match_id db'
confirm_contribution-completes tenant item match_id cid db db' cf m' h done =
    let (m, found, step) = locked_completes tenant item match_id cid db db' cf m' h done in
    let (rows, all, full, was) =
      proposed_completes tenant match_id cid db db' cf m found step done in
    let s = MatchState.both_confirmed in
    (
      all,
      full,
      (
        record m { state = s },
        rw rows (set_state-found tenant match_id s db.matches m found),
        refl,
      ),
    )

-- An expiry leaves the items as they are.
pub expire-items :
    (tenant item match_id : String) (db : Db)
    → (after_expires db (expire_if_proposed tenant item match_id db)).items ≡ db.items
unfolding expire_if_proposed expire_locked expire_proposed
expire-items tenant item match_id db = ground arith

-- An expiry of a match whose item can be locked resolves it, if it is not resolved already.
pub expire-own :
    (tenant item match_id : String) (db : Db) (m : MatchRow)
    → select_row (match_row tenant match_id) db.matches ≡ some m
    → is_some (select_row (item_row tenant item) db.items) ≡ true
    → Resolved tenant match_id (after_expires db (expire_if_proposed tenant item match_id db))
unfolding expire_if_proposed expire_locked expire_proposed
expire-own tenant item match_id db m found there =
    let set = set_state-found tenant match_id MatchState.expired db.matches m found in
    elim (Bool-cases (is_proposed m.state)) [
      | inl e ↦ rw (there, found, e) (record m { state = MatchState.expired }, set, refl)
      | inr e ↦ rw (there, found, e) (m, found, e)
    ]

-- An expiry deletes no match.
pub expire-found :
    (tenant item match_id : String) (db : Db) (m : MatchRow)
    → select_row (match_row tenant match_id) db.matches ≡ some m
    → (m' : MatchRow) × (select_row
          (match_row tenant match_id)
          (after_expires db (expire_if_proposed tenant item match_id db)).matches
        ≡ some m')
unfolding expire_if_proposed
expire-found tenant item match_id db m found =
    elim (Bool-cases (is_some (select_row (item_row tenant item) db.items))) [
      | inl e ↦ let done = expire-own tenant item match_id db m found e in (done.0, done.1)
      | inr e ↦ rw e (m, found)
    ]
