-- ===== src/Api/Dissolve/Released.antt =====
-- What `dissolveMatch` of internal/api/cobuying.go does to one pledge.
use yaadegar.Base.{
  String, Bool, true, false, not, ◌==◌, ◌&&◌, ◌≡◌, refl, sym, ◌∙◌, List, [], ◌∷◌, none, arith,
  Option-cases, inl, inr, is_some,
}
use yaadegar.Base.Table.{select_where, select_row, count_where, update_where}
use yaadegar.Base.Table.Count.{count-select_none, select_row-holds, select_where-disjoint}
use yaadegar.Storage.{Result, ok, err, Error, not_found, Contribution, ContributionStatus}
use yaadegar.Sqlstore.Db.{Db}
use yaadegar.Sqlstore.Contributions
use yaadegar.Sqlstore.Contributions.{row}
use yaadegar.World.{World, value}
use yaadegar.Api.Dissolve.{reopen, reopen_found, reopen_id}

abbrev pub is_pending : ContributionStatus → Bool
is_pending ContributionStatus.pending = true
is_pending _ = false

-- Pending, in no match, and with no scoped token.
abbrev pub released : Contribution → Bool
released c =
    is_pending c.status
    && not (is_some c.match_id)
    && c.match_action_token_hash == ""
    && not (is_some c.match_action_token_expires_at)

-- The rows of a pledge that are not released.
abbrev pub unreleased : String → String → Contribution → Bool
unreleased tenant id c = row tenant id c && not (released c)

abbrev pub AllReleased : String → String → Db → Type 0
AllReleased tenant id db = count_where (unreleased tenant id) db.contributions ≡ 0

-- A pledge that goes back to pending, the rows that are released already, and the matches.
reopen-rows :
    (tenant : String) (c : Contribution) (w w' : World) (u : Unit {0})
    → reopen tenant c w ≡ (value u, w')
    → w'.db ≡ record w.db {
      contributions =
          update_where
            (row tenant c.id)
            (λ r. record r { match_action_token_hash = ""; match_action_token_expires_at = none })
            (update_where
              (row tenant c.id)
              (λ r. record r { status = ContributionStatus.pending; match_id = none })
              w.db.contributions);
    }
unfolding reopen Contributions.update Contributions.update_row Contributions.set_match_action_token
reopen-rows tenant c w w' u h = ground arith

reopen-released :
    (tenant id : String) (cs : List Contribution)
    → count_where (unreleased tenant id) (
        update_where
          (row tenant id)
          (λ r. record r { match_action_token_hash = ""; match_action_token_expires_at = none })
          (update_where
            (row tenant id)
            (λ r. record r { status = ContributionStatus.pending; match_id = none })
            cs))
      ≡ 0
unfolding count_where update_where
reopen-released tenant id [] = refl
reopen-released tenant id (c ∷ cs) = ground (arith, reopen-released tenant id cs)

reopen-keeps :
    (tenant id id' : String) (cs : List Contribution)
    → count_where (unreleased tenant id) cs ≡ 0
    → count_where (unreleased tenant id) (
        update_where
          (row tenant id')
          (λ r. record r { match_action_token_hash = ""; match_action_token_expires_at = none })
          (update_where
            (row tenant id')
            (λ r. record r { status = ContributionStatus.pending; match_id = none })
            cs))
      ≡ 0
unfolding count_where update_where
reopen-keeps tenant id id' [] h = refl
reopen-keeps tenant id id' (c ∷ cs) h = ground (arith, reopen-keeps tenant id id' cs)

-- The rows of a pledge.
abbrev pub rows : String → String → Db → List Contribution
rows tenant id db = select_where (row tenant id) db.contributions

other_row :
    (tenant id id' : String) (c : Contribution)
    → (id == id') ≡ false
    → row tenant id' c ≡ true
    → row tenant id c ≡ false
other_row tenant id id' c ne h = ground arith

-- What releasing the pledge `id` does to every pledge of the tenant, and to the matches.
pub record Releases (tenant id : String) (db db' : Db) : Type 0 where
  pub done : AllReleased tenant id db'
  pub keeps : (other : String) → AllReleased tenant other db → AllReleased tenant other db'
  pub others :
      (other : String) → (other == id) ≡ false → rows tenant other db' ≡ rows tenant other db
  pub matches : db'.matches ≡ db.matches

reopen-Releases :
    (tenant : String) (c : Contribution) (w w' : World) (u : Unit {0})
    → reopen tenant c w ≡ (value u, w')
    → Releases tenant c.id w.db w'.db
reopen-Releases tenant c w w' u h =
    let now = reopen-rows tenant c w w' u h in
    let set =
      λ (r : Contribution). record r { status = ContributionStatus.pending; match_id = none } in
    let clear = λ (r : Contribution). record r {
      match_action_token_hash = "";
      match_action_token_expires_at = none;
    } in
    let cs = w.db.contributions in
    record {
      done = rw now (reopen-released tenant c.id cs);
      keeps = λ other z. rw now (reopen-keeps tenant other c.id cs z);
      others = λ other ne. rw now (
          select_where-disjoint (row tenant other) (row tenant c.id) clear
            (update_where (row tenant c.id) set cs) (λ r. other_row tenant other c.id r ne)
            (λ r. refl)
          ∙ select_where-disjoint (row tenant other) (row tenant c.id) set cs
              (λ r. other_row tenant other c.id r ne) (λ r. refl));
      matches = rw now refl;
    }

get-holds :
    (tenant id : String) (db : Db) (c : Contribution)
    → Contributions.get tenant id db ≡ ok c
    → c.id ≡ id
unfolding Contributions.get Contributions.get_by
get-holds tenant id db c h = elim (Option-cases (select_row (row tenant id) db.contributions)) [
  | inl e ↦ absurd (ground arith)
  | inr (r, e) ↦ let hit = select_row-holds (row tenant id) db.contributions r e in ground arith
]

missing-released :
    (tenant id : String) (db : Db)
    → Contributions.get tenant id db ≡ err not_found
    → AllReleased tenant id db
unfolding Contributions.get Contributions.get_by
missing-released tenant id db h =
    count-select_none (row tenant id) (unreleased tenant id) db.contributions (λ c e. ground arith)
      (ground arith)

found-Releases :
    (tenant id : String) (r : Result Contribution) (w w' : World) (u : Unit {0})
    → Contributions.get tenant id w.db ≡ r
    → reopen_found tenant r w ≡ (value u, w')
    → Releases tenant id w.db w'.db
unfolding reopen_found
found-Releases tenant id (ok c) w w' u e h =
    rw (sym (get-holds tenant id w.db c e)) (reopen-Releases tenant c w w' u h)
found-Releases tenant id (err not_found) w w' u e h =
    let same : w' ≡ w = ground arith in
    rw same (record {
      done = missing-released tenant id w.db e;
      keeps = λ other z. z;
      others = λ other ne. refl;
      matches = refl;
    })
found-Releases tenant id (err Error.conflict) w w' u e h = absurd (ground arith)
found-Releases tenant id (err Error.capacity_exceeded) w w' u e h = absurd (ground arith)
found-Releases tenant id (err Error.cross_track_conflict) w w' u e h = absurd (ground arith)
found-Releases tenant id (err Error.invalid_list_title) w w' u e h = absurd (ground arith)
found-Releases tenant id (err Error.other) w w' u e h = absurd (ground arith)

pub reopen_id-Releases :
    (tenant id : String) (w w' : World) (u : Unit {0})
    → reopen_id tenant id w ≡ (value u, w')
    → Releases tenant id w.db w'.db
unfolding reopen_id
reopen_id-Releases tenant id w w' u h =
    found-Releases tenant id (Contributions.get tenant id w.db) w w' u refl h
