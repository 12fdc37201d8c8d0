-- ===== src/Api/Pledge/Proposed.antt =====
-- What `maybeProposeMatch` of internal/api/cobuying.go leaves in the store.
use yaadegar.Base.{
  String, Bool, false, not, ◌==◌, ◌&&◌, ◌||◌, ◌≡◌, refl, sym, ◌∙◌, List, [], ◌∷◌, Option, some,
  arith, Option-cases, inl, inr,
}
use yaadegar.Base.Int64.{max_int64}
use yaadegar.Sqlstore.Db.{sum}
use yaadegar.Base.Int.{+ℤ_parts, pos, ◌≤ℤ◌, ltb_ℤ}
use yaadegar.Base.Table.{select_where, select_row, count_where}
use yaadegar.Base.Table.Count.{count-update_into, count-update_zero, count-weaken}
use yaadegar.Storage.{
  Result-cases, ok, Contribution, ContributionStatus, Item, Match, MatchState, Money, Time,
}
use yaadegar.Sqlstore.Db.{Db, MatchRow}
use yaadegar.Sqlstore.Contributions
use yaadegar.Sqlstore.Contributions.{pledges}
use yaadegar.Sqlstore.Matches
use yaadegar.Sqlstore.Matches.{link_contributions, link_contribution, contribution_row, match_row}
use yaadegar.Api.Pledge.Coverage.{NotNegative, covered-exact}
use yaadegar.World.{Flow-cases, World, value}
use yaadegar.Api.{Server, Runtime}
use yaadegar.Api.ThankYou.{send_or_forget-db}
use yaadegar.Api.Pledge.{
  is_pending, pending_of, covered, too_few, ids_of, set_tokens, email_match, expiry, propose,
  propose_over, maybe_propose_match, blank_match,
}

abbrev pub member : String → List String → Bool
member id [] = false
member id (x ∷ xs) = x == id || member id xs

-- The pledges on an item that wait for a match.
abbrev pub pending_on : String → String → Contribution → Bool
pending_on tenant item c = c.tenant_id == tenant && c.item_id == item && is_pending c.status

-- Those that a list of ids leaves out.
abbrev left_out : String → String → List String → Contribution → Bool
left_out tenant item ids c = pending_on tenant item c && not (member c.id ids)

abbrev pub on_item : String → String → Contribution → Bool
on_item tenant item c = c.tenant_id == tenant && c.item_id == item

left_out-more :
    (tenant item id : String) (ids : List String) (l : List Contribution)
    → count_where (left_out tenant item ids) l ≡ 0
    → count_where (left_out tenant item (id ∷ ids)) l ≡ 0
left_out-more tenant item id ids l = count-weaken _ _ l λ c h. ground arith

none-left_out :
    (tenant item : String) (l : List Contribution)
    → count_where
        (left_out tenant item (ids_of (pending_of (select_where (on_item tenant item) l))))
        l
      ≡ 0
unfolding select_where pending_of count_where
none-left_out tenant item [] = refl
none-left_out tenant item (c ∷ l) =
    let ids = ids_of (pending_of (select_where (on_item tenant item) l)) in
    ground (arith, none-left_out tenant item l, left_out-more tenant item c.id ids l)

link-left_out :
    (item cid : String) (m : Match) (ids : List String) (db db' : Db) (u : Unit {0})
    → link_contribution m cid db ≡ ok (u, db')
    → count_where (left_out m.tenant_id item (cid ∷ ids)) db.contributions ≡ 0
    → (count_where (left_out m.tenant_id item ids) db'.contributions ≡ 0)
      × (db'.matches ≡ db.matches)
unfolding link_contribution
link-left_out item cid m ids db db' u h z = ground (
  arith,
  count-update_into (contribution_row m.tenant_id cid) (left_out m.tenant_id item ids)
      (left_out m.tenant_id item (cid ∷ ids))
      (λ c. record c { match_id = some m.id; status = ContributionStatus.matched }) db.contributions
      (λ c hit. ground arith) (λ c miss l. ground arith) z,
)

links-left_out :
    (item : String) (m : Match) (ids : List String) (db db' : Db) (u : Unit {0})
    → link_contributions m ids db ≡ ok (u, db')
    → count_where (left_out m.tenant_id item ids) db.contributions ≡ 0
    → (count_where (pending_on m.tenant_id item) db'.contributions ≡ 0) × (db'.matches ≡ db.matches)
unfolding link_contributions
links-left_out item m [] db db' u h z = ground (
  arith,
  count-weaken (pending_on m.tenant_id item) (left_out m.tenant_id item []) db.contributions
      (λ c l. ground arith) z,
)
links-left_out item m (cid ∷ ids) db db' u h z = elim (Result-cases (link_contribution m cid db)) [
  | inl (e, failed) ↦ absurd (ground arith)
  | inr ((v, db1), linked) ↦
      let (z1, same1) = link-left_out item cid m ids db db1 v linked z in
      let (z2, same2) = links-left_out item m ids db1 db' u (ground arith) z1 in (z2, same2 ∙ same1)
]

row_of : Match → MatchRow
row_of m = record {
  id = m.id;
  tenant_id = m.tenant_id;
  item_id = m.item_id;
  state = m.state;
  created_at = m.created_at;
}

create-links :
    (tenant new_id : String) (now : Time) (m m' : Match) (db db' : Db)
    → Matches.create tenant new_id now m db ≡ ok (m', db')
    → (m' ≡ Matches.prep tenant new_id now m)
      × (link_contributions m' m'.contribution_ids (record db { matches = row_of m' ∷ db.matches })
          ≡ ok (tt, db'))
unfolding Matches.create row_of
create-links tenant new_id now m m' db db' h = ground arith

stored_row :
    (m : Match) (ms : List MatchRow)
    → select_row (match_row m.tenant_id m.id) (row_of m ∷ ms) ≡ some (row_of m)
unfolding select_row row_of
stored_row m ms = ground arith

create-closes :
    (tenant new_id : String) (now : Time) (m m' : Match) (db db' : Db)
    → Matches.create tenant new_id now m db ≡ ok (m', db')
    → count_where (left_out tenant m.item_id m.contribution_ids) db.contributions ≡ 0
    → (count_where (pending_on tenant m.item_id) db'.contributions ≡ 0)
      × (m' ≡ Matches.prep tenant new_id now m)
      × (select_row (match_row tenant m'.id) db'.matches ≡ some (row_of m'))
unfolding Matches.prep
create-closes tenant new_id now m m' db db' h z =
    let (e, links) = create-links tenant new_id now m m' db db' h in
    let t : m'.tenant_id ≡ tenant = rw e refl in
    let ids : m'.contribution_ids ≡ m.contribution_ids = rw e refl in
    let db1 = record db { matches = row_of m' ∷ db.matches } in
    let (closed, same) =
      links-left_out m.item_id m' m'.contribution_ids db1 db' tt links (rw (t, ids) z) in
    (rw (sym t) closed, e, rw (same, sym t) (stored_row m' db.matches))

-- The tokens of the parties are written without touching a status or a match.
Keeps : String → String → Db → Db → Type 0
Keeps tenant item db db' =
    (count_where (pending_on tenant item) db.contributions ≡ 0
      → count_where (pending_on tenant item) db'.contributions ≡ 0)
    × (db'.matches ≡ db.matches)

token-Keeps :
    (tenant item id hash : String) (t : Option Time) (db db' : Db) (u : Unit {0})
    → Contributions.set_match_action_token tenant id hash t db ≡ ok (u, db')
    → Keeps tenant item db db'
unfolding Keeps Contributions.set_match_action_token Contributions.update_row
token-Keeps tenant item id hash t db db' u h = (
  λ z. ground (
    arith,
    count-update_zero (Contributions.row tenant id) (pending_on tenant item)
        (λ c. record c { match_action_token_hash = hash; match_action_token_expires_at = t })
        db.contributions (λ c hit l. ground arith) z,
  ),
  ground arith,
)

tokens-Keeps :
    (s : Server) (rt : Runtime) (tenant item match_id : String) (cs : List Contribution)
    (w w' : World) (links : List (Contribution × String))
    → set_tokens s rt tenant match_id cs w ≡ (value links, w')
    → Keeps tenant item w.db w'.db
unfolding Keeps set_tokens
tokens-Keeps s rt tenant item match_id [] w w' links h = ground arith
tokens-Keeps s rt tenant item match_id (c ∷ cs) w w' links h =
    elim (Option-cases (rt.match_token c.id)) [
      | inl e ↦ absurd (ground arith)
      | inr (t, e) ↦
          elim (Result-cases
            (Contributions.set_match_action_token tenant c.id t.1 (expiry s rt) w.db)) [
              | inl (x, failed) ↦ absurd (ground arith)
              | inr ((v, db1), wrote) ↦
                  let w1 = record w { db = db1 } in
                  elim (Flow-cases (set_tokens s rt tenant match_id cs w1)) [
                    | inl (x, w2, stopped) ↦ absurd (ground arith)
                    | inr (ls, w2, rest) ↦
                        let (z1, same1) =
                          token-Keeps tenant item c.id t.1 (expiry s rt) w.db db1 v wrote in
                        let (z2, same2) = tokens-Keeps s rt tenant item match_id cs w1 w2 ls rest in
                        let end : w' ≡ w2 = ground arith in rw end (λ z. z2 (z1 z), same2 ∙ same1)
                  ]
            ]
    ]

email-db :
    (rt : Runtime) (links : List (Contribution × String)) (w : World)
    → (email_match rt links w).db ≡ w.db
unfolding email_match
email-db rt [] w = refl
email-db rt ((c, link) ∷ cs) w = email-db rt cs _ ∙ send_or_forget-db rt _ w

propose-closes :
    (s : Server) (rt : Runtime) (tenant item : String) (pending : List Contribution) (w w' : World)
    (m : Match)
    → propose s rt tenant item pending w ≡ (value (some m), w')
    → count_where (left_out tenant item (ids_of pending)) w.db.contributions ≡ 0
    → (count_where (pending_on tenant item) w'.db.contributions ≡ 0)
      × (m
          ≡ Matches.prep tenant rt.new_match_id rt.now
              (record blank_match { item_id = item; contribution_ids = ids_of pending }))
      × (select_row (match_row tenant m.id) w'.db.matches ≡ some (row_of m))
unfolding propose Keeps
propose-closes s rt tenant item pending w w' m h z =
    let m0 = record blank_match { item_id = item; contribution_ids = ids_of pending } in
    elim (Result-cases (Matches.create tenant rt.new_match_id rt.now m0 w.db)) [
      | inl (x, failed) ↦ absurd (ground arith)
      | inr ((m1, db1), made) ↦
          let w1 = record w { db = db1 } in
          let (closed, e, row) =
            create-closes tenant rt.new_match_id rt.now m0 m1 w.db db1 made z in
          elim (Flow-cases (set_tokens s rt tenant m1.id pending w1)) [
            | inl (x, w2, stopped) ↦ absurd (ground arith)
            | inr (links, w2, set) ↦
                let (keeps, same) = tokens-Keeps s rt tenant item m1.id pending w1 w2 links set in
                let is_m : m ≡ m1 = ground arith in
                let is_w : w'.db ≡ w2.db = ground (arith, email-db rt links w2) in
                rw (is_m, is_w, same) (keeps closed, e, row)
          ]
    ]

-- The pledges on the item that are pending before the call.
abbrev pub waiting : String → String → Db → List Contribution
waiting tenant item db = pending_of (select_where (on_item tenant item) db.contributions)

enough :
    (cs : List Contribution)
    → too_few cs ≡ false
    → (a : Contribution) × (b : Contribution) × (rest : List Contribution) × (cs ≡ a ∷ b ∷ rest)
enough [] h = absurd (ground arith)
enough (a ∷ []) h = absurd (ground arith)
enough (a ∷ b ∷ rest) h = (a, b, rest, refl)

proposes :
    (s : Server) (rt : Runtime) (tenant : String) (it : Item) (w w' : World) (m : Match)
    → maybe_propose_match s rt tenant it w ≡ (value (some m), w')
    → (price : Money) × (it.price ≡ some price)
      × (too_few (waiting tenant it.id w.db) ≡ false)
      × (ltb_ℤ (covered (pos 0) (waiting tenant it.id w.db)) price.amount_minor ≡ false)
      × (propose s rt tenant it.id (waiting tenant it.id w.db) w ≡ (value (some m), w'))
unfolding maybe_propose_match propose_over Contributions.list_by_item
proposes s rt tenant it w w' m h = elim (Option-cases it.price) [
  | inl e ↦ absurd (ground arith)
  | inr (price, e) ↦ (price, e, ground arith, ground arith, ground arith)
]

-- A match is proposed over all the pledges that are pending on the item. They are two at least, they
-- cover the price when they are not negative and add up to an int64, the match is stored as proposed,
-- and afterwards no pledge on the item is pending.
pub maybe_propose_match-closes :
    (s : Server) (rt : Runtime) (tenant : String) (it : Item) (w w' : World) (m : Match)
    → maybe_propose_match s rt tenant it w ≡ (value (some m), w')
    → NotNegative (waiting tenant it.id w.db)
    → sum (pledges (waiting tenant it.id w.db)) ≤ℤ max_int64
    → ((price : Money) × (it.price ≡ some price)
        × (price.amount_minor ≤ℤ sum (pledges (waiting tenant it.id w.db))))
      × ((a : Contribution) × (b : Contribution) × (rest : List Contribution) × (waiting tenant
              it.id w.db
            ≡ a ∷ b ∷ rest))
      × (m.contribution_ids ≡ ids_of (waiting tenant it.id w.db))
      × ((r : MatchRow) × (select_row (match_row tenant m.id) w'.db.matches ≡ some r)
          × (r.item_id ≡ it.id)
          × (r.state ≡ MatchState.proposed))
      × (count_where (pending_on tenant it.id) w'.db.contributions ≡ 0)
unfolding row_of Matches.prep
maybe_propose_match-closes s rt tenant it w w' m h amounts fits =
    let cs = waiting tenant it.id w.db in
    let (price, e, many, le, made) = proposes s rt tenant it w w' m h in
    let (closed, is_m, row) =
      propose-closes s rt tenant it.id cs w w' m made
        (none-left_out tenant it.id w.db.contributions) in
    let zero_plus = +ℤ_parts (pos 0) (sum (pledges cs)) in
    let exact = covered-exact (pos 0) cs amounts (omega arith) (omega (arith, fits, zero_plus)) in
    let le' = rw exact at le in
    (
      (price, e, ground (arith, le', zero_plus)),
      enough cs many,
      rw is_m refl,
      (row_of m, row, rw is_m refl, rw is_m refl),
      closed,
    )
