-- ===== src/Api/Cobuying/Contacts.antt =====
-- Who sees the contacts of a match, and when.
use yaadegar.Base.{String, true, ◌≡◌, refl, List, some, arith, points_to}
use yaadegar.Storage.{Result, ok, err, Contribution, Match, MatchState}
use yaadegar.Sqlstore.Db.{Db}
use yaadegar.Sqlstore.Matches
use yaadegar.World.{World}
use yaadegar.Api.{Runtime}
use yaadegar.Api.Cobuying.{
  Actor, actor, by_action_token, either_token, resolve_match_actor, MatchView, reveal, to_gen_match,
  shown, show_with, show_match, match_for, get_match,
}

-- The holder of the token is a party of the match.
pub resolve_match_actor-party :
    (rt : Runtime) (tenant raw match_id : String) (db : Db) (c : Contribution)
    → resolve_match_actor rt tenant raw match_id db ≡ actor c
    → points_to c.match_id match_id ≡ true
unfolding resolve_match_actor either_token by_action_token
resolve_match_actor-party rt tenant raw match_id db c h = ground arith

pub to_gen_match-contacts :
    (m : Match) (gathered contacts : List String)
    → (to_gen_match m gathered).contacts ≡ some contacts
    → (m.state ≡ MatchState.both_confirmed) × (contacts ≡ gathered)
unfolding to_gen_match reveal
to_gen_match-contacts m gathered contacts h = ground arith

show_with-state :
    (m : Match) (res : Result (List String)) (v : MatchView) (contacts : List String)
    → show_with m res ≡ shown v
    → v.contacts ≡ some contacts
    → m.state ≡ MatchState.both_confirmed
unfolding show_with to_gen_match reveal
show_with-state m res v contacts h e = ground arith

show_match-state :
    (tenant : String) (db : Db) (res : Result Match) (v : MatchView) (contacts : List String)
    → show_match tenant db res ≡ shown v
    → v.contacts ≡ some contacts
    → (m : Match) × (res ≡ ok m) × (m.state ≡ MatchState.both_confirmed)
unfolding show_match
show_match-state tenant db (err x) v contacts h e = absurd (ground arith)
show_match-state tenant db (ok m) v contacts h e = (m, refl, show_with-state m _ v contacts h e)

match_for-actor :
    (tenant match_id : String) (db : Db) (a : Actor) (v : MatchView)
    → match_for tenant match_id db a ≡ shown v
    → (c : Contribution) × (a ≡ actor c)
unfolding match_for
match_for-actor tenant match_id db Actor.unauthorized v h = absurd (ground arith)
match_for-actor tenant match_id db Actor.not_in_match v h = absurd (ground arith)
match_for-actor tenant match_id db Actor.action_token_expired v h = absurd (ground arith)
match_for-actor tenant match_id db (Actor.actor_failed e) v h = absurd (ground arith)
match_for-actor tenant match_id db (Actor.actor c) v h = (c, refl)

match_for-state :
    (tenant match_id : String) (db : Db) (c : Contribution) (v : MatchView) (contacts : List String)
    → match_for tenant match_id db (Actor.actor c) ≡ shown v
    → v.contacts ≡ some contacts
    → (m : Match) × (Matches.get tenant match_id db ≡ ok m) × (m.state ≡ MatchState.both_confirmed)
unfolding match_for
match_for-state tenant match_id db c v contacts h e = show_match-state tenant db _ v contacts h e

-- A match that is shown with contacts was asked for with a token of one of its parties, and both
-- parties have confirmed.
pub get_match-contacts :
    (rt : Runtime) (tenant raw match_id : String) (w : World) (v : MatchView)
    (contacts : List String)
    → get_match rt (some tenant) raw match_id w ≡ shown v
    → v.contacts ≡ some contacts
    → ((c : Contribution) × (resolve_match_actor rt tenant raw match_id w.db ≡ actor c)
        × (points_to c.match_id match_id ≡ true))
      × ((m : Match) × (Matches.get tenant match_id w.db ≡ ok m)
          × (m.state ≡ MatchState.both_confirmed))
unfolding get_match
get_match-contacts rt tenant raw match_id w v contacts h e =
    let (c, is) = match_for-actor tenant match_id w.db _ v h in
    let h' = rw is at h in
    (
      (c, is, resolve_match_actor-party rt tenant raw match_id w.db c is),
      match_for-state tenant match_id w.db c v contacts h' e,
    )
