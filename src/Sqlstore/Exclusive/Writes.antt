-- ===== src/Sqlstore/Exclusive/Writes.antt =====
-- The writes to a pledge that stays where it is: `Update` and `SetMatchActionToken` of contributions.go,
-- and `ConfirmContribution` of matches.go.
use yaadegar.Base.{String, Bool, true, not, ◌&&◌, ◌≡◌, refl, ◌⊎◌, List, [], ◌∷◌, Option, arith}
use yaadegar.Base.Table.{count_where, update_where}
use yaadegar.Base.Table.Count.{count-update_zero}
use yaadegar.Storage.{ok, Time, Contribution, ContributionStatus, is_open, Match}
use yaadegar.Sqlstore.Db.{Db}
use yaadegar.Sqlstore.Reservations.{open_on}
use yaadegar.Sqlstore.Contributions
use yaadegar.Sqlstore.Contributions.{update_row}
use yaadegar.Sqlstore.Matches.{
  confirm_locked, confirm_contribution, confirm_row, set_status, Confirmed,
}
use yaadegar.Sqlstore.Exclusive.{Lessens}

-- The rows that a write hits are open, if it leaves them open.
abbrev pub ReopensNone : (Contribution → Bool) → ContributionStatus → List Contribution → Type 0
ReopensNone hit s cs = is_open s ≡ true → count_where (λ c. hit c && not (is_open c.status)) cs ≡ 0

write-closed :
    (t i : String) (hit : Contribution → Bool) (f : Contribution → Contribution)
    (s : ContributionStatus) (cs : List Contribution)
    → ((c : Contribution)
        → open_on t i (f c) ≡ true
        → (is_open s ≡ true) × ((is_open c.status ≡ true) → open_on t i c ≡ true))
    → ReopensNone hit s cs
    → count_where (open_on t i) cs ≡ 0
    → count_where (open_on t i) (update_where hit f cs) ≡ 0
unfolding count_where update_where
write-closed t i hit f s [] keeps none_closed z = refl
write-closed t i hit f s (c ∷ cs) keeps none_closed z =
    ground (arith, keeps c, write-closed t i hit f s cs keeps)

update_ok :
    (tenant : String) (c c' : Contribution) (db db' : Db)
    → Contributions.update tenant c db ≡ ok (c', db')
    → (db'.reservations ≡ db.reservations)
      × (db'.contributions
          ≡ update_where
              (Contributions.row tenant c.id)
              (λ r. record r { status = c.status; match_id = c.match_id })
              db.contributions)
unfolding Contributions.update update_row Contributions.get
update_ok tenant c c' db db' h = ground arith

pub update-reservations :
    (tenant : String) (c c' : Contribution) (db db' : Db)
    → Contributions.update tenant c db ≡ ok (c', db')
    → db'.reservations ≡ db.reservations
update-reservations tenant c c' db db' h = (update_ok tenant c c' db db' h).0

pub update-Lessens :
    (tenant : String) (c c' : Contribution) (db db' : Db)
    → Contributions.update tenant c db ≡ ok (c', db')
    → ReopensNone (Contributions.row tenant c.id) c.status db.contributions
    → Lessens db db'
update-Lessens tenant c c' db db' h none_closed t i =
    let done = update_ok tenant c c' db db' h in
    rw (done.0, done.1)
      (
        (λ z. z),
        write-closed t i (Contributions.row tenant c.id)
            (λ r. record r { status = c.status; match_id = c.match_id }) c.status db.contributions
            (λ r held. ground arith) none_closed,
      )

token_ok :
    (tenant id hash : String) (expires : Option Time) (db db' : Db)
    → Contributions.set_match_action_token tenant id hash expires db ≡ ok (tt, db')
    → (db'.reservations ≡ db.reservations)
      × (db'.contributions
          ≡ update_where
              (Contributions.row tenant id)
              (λ r. record r {
                match_action_token_hash = hash;
                match_action_token_expires_at = expires;
              })
              db.contributions)
unfolding Contributions.set_match_action_token update_row
token_ok tenant id hash expires db db' h = ground arith

pub token-reservations :
    (tenant id hash : String) (expires : Option Time) (db db' : Db)
    → Contributions.set_match_action_token tenant id hash expires db ≡ ok (tt, db')
    → db'.reservations ≡ db.reservations
token-reservations tenant id hash expires db db' h = (token_ok tenant id hash expires db db' h).0

pub token-Lessens :
    (tenant id hash : String) (expires : Option Time) (db db' : Db)
    → Contributions.set_match_action_token tenant id hash expires db ≡ ok (tt, db')
    → Lessens db db'
token-Lessens tenant id hash expires db db' h t i =
    let done = token_ok tenant id hash expires db db' h in
    rw (done.0, done.1)
      (
        (λ z. z),
        count-update_zero (Contributions.row tenant id) (open_on t i)
            (λ r. record r {
              match_action_token_hash = hash;
              match_action_token_expires_at = expires;
            })
            db.contributions (λ r hit held. held),
      )

confirm_ok :
    (tenant item_id match_id cid : String) (m : Match) (r : Confirmed) (db db' : Db)
    → confirm_contribution tenant item_id match_id cid db ≡ ok ((m, r), db')
    → (db'.reservations ≡ db.reservations)
      × ((db'.contributions ≡ db.contributions)
          ⊎ (db'.contributions
              ≡ update_where
                  (confirm_row tenant match_id cid)
                  (set_status ContributionStatus.confirmed)
                  db.contributions))
unfolding confirm_contribution confirm_locked
confirm_ok tenant item_id match_id cid m r db db' h = ground arith

pub confirm-reservations :
    (tenant item_id match_id cid : String) (m : Match) (r : Confirmed) (db db' : Db)
    → confirm_contribution tenant item_id match_id cid db ≡ ok ((m, r), db')
    → db'.reservations ≡ db.reservations
confirm-reservations tenant item_id match_id cid m r db db' h =
    (confirm_ok tenant item_id match_id cid m r db db' h).0

pub confirm-Lessens :
    (tenant item_id match_id cid : String) (m : Match) (r : Confirmed) (db db' : Db)
    → confirm_contribution tenant item_id match_id cid db ≡ ok ((m, r), db')
    → ReopensNone (confirm_row tenant match_id cid) ContributionStatus.confirmed db.contributions
    → Lessens db db'
confirm-Lessens tenant item_id match_id cid m r db db' h none_closed t i =
    let done = confirm_ok tenant item_id match_id cid m r db db' h in
    let kept =
      write-closed t i (confirm_row tenant match_id cid) (set_status ContributionStatus.confirmed)
        ContributionStatus.confirmed db.contributions (λ c held. ground arith) none_closed in
    ground (arith, done, kept)
