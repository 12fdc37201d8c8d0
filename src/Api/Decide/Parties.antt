-- ===== src/Api/Decide/Parties.antt =====
-- What `ConfirmMatch` of internal/api/cobuying.go leaves of the pledges when it spends their tokens.
use yaadegar.Base.{
  String, Bool, true, not, ◌&&◌, ◌≡◌, refl, ◌∙◌, List, [], ◌∷◌, none, map, arith, inl, inr,
}
use yaadegar.Base.Table.{select_where, count_where}
use yaadegar.Base.Table.Count.{count-update_zero, column-update}
use yaadegar.Storage.{Result-cases, ok, Contribution}
use yaadegar.Sqlstore.Db.{Db}
use yaadegar.Sqlstore.Contributions
use yaadegar.Sqlstore.Contributions.{row}
use yaadegar.Sqlstore.Matches.{on_match, is_confirmed, all_confirmed, fully_confirmed}
use yaadegar.World.{World, value}
use yaadegar.Api.Decide.{clear_tokens}

-- The addresses of the pledges on a match, and those of its pledges that are not confirmed.
abbrev pub addresses : String → String → Db → List String
addresses tenant match_id db =
    map (λ c. c.contact_email) (select_where (on_match tenant match_id) db.contributions)

abbrev pub unconfirmed : String → String → Contribution → Bool
unconfirmed tenant match_id c = on_match tenant match_id c && not (is_confirmed c.status)

abbrev pub SameParties : String → String → Db → Db → Type 0
SameParties tenant match_id db db' =
    (addresses tenant match_id db' ≡ addresses tenant match_id db)
    × (count_where (unconfirmed tenant match_id) db.contributions ≡ 0
        → count_where (unconfirmed tenant match_id) db'.contributions ≡ 0)

token-SameParties :
    (tenant match_id id : String) (db db' : Db) (u : Unit {0})
    → Contributions.set_match_action_token tenant id "" none db ≡ ok (u, db')
    → SameParties tenant match_id db db'
unfolding Contributions.set_match_action_token Contributions.update_row
token-SameParties tenant match_id id db db' u h =
    let clear = λ (c : Contribution). record c {
      match_action_token_hash = "";
      match_action_token_expires_at = none;
    } in
    (
      ground (
        arith,
        column-update (on_match tenant match_id) (row tenant id) clear (λ c. c.contact_email)
            db.contributions (λ c. refl) (λ c. refl),
      ),
      λ z. ground (
        arith,
        count-update_zero (row tenant id) (unconfirmed tenant match_id) clear db.contributions
            (λ c hit l. ground arith) z,
      ),
    )

pub tokens-SameParties :
    (tenant match_id : String) (cs : List Contribution) (w w' : World) (u : Unit {0})
    → clear_tokens tenant cs w ≡ (value u, w')
    → SameParties tenant match_id w.db w'.db
unfolding clear_tokens
tokens-SameParties tenant match_id [] w w' u h =
    let same : w' ≡ w = ground arith in rw same (refl, λ z. z)
tokens-SameParties tenant match_id (c ∷ cs) w w' u h =
    elim (Result-cases (Contributions.set_match_action_token tenant c.id "" none w.db)) [
      | inl (f, failed) ↦ absurd (ground arith)
      | inr ((v, db1), wrote) ↦
          let (a1, z1) = token-SameParties tenant match_id c.id w.db db1 v wrote in
          let (a2, z2) =
            tokens-SameParties tenant match_id cs (record w { db = db1 }) w' u (ground arith) in
          (a2 ∙ a1, λ z. z2 (z1 z))
    ]

pub none-unconfirmed :
    (tenant match_id : String) (cs : List Contribution)
    → all_confirmed (select_where (on_match tenant match_id) cs) ≡ true
    → count_where (unconfirmed tenant match_id) cs ≡ 0
unfolding select_where count_where
none-unconfirmed tenant match_id [] h = refl
none-unconfirmed tenant match_id (c ∷ cs) h = ground (arith, none-unconfirmed tenant match_id cs)

pub fully-all : (cs : List Contribution) → fully_confirmed cs ≡ true → all_confirmed cs ≡ true
fully-all [] h = absurd (ground arith)
fully-all (c ∷ cs) h = h
