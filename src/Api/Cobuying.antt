-- ===== src/Api/Cobuying.antt =====
-- internal/api/cobuying.go: who may act on a match, what a match shows, and the withdrawal of a
-- pledge. The calls of the store are separate transactions, so an error keeps what was done before it.
pub mod Contacts
use yaadegar.Base.{
  String, Bool, true, false, not, ◌==◌, List, [], ◌∷◌, Option, none, some, map, if◌then◌else◌,
  points_to,
}
use yaadegar.Base.Int.{ltb_ℤ}
use yaadegar.Storage.{
  Result, ok, err, ◌>>=◌, Error, not_found, Time, Contribution, ContributionStatus, Match,
  MatchState,
}
use yaadegar.Sqlstore.Db.{Db, Op}
use yaadegar.Sqlstore.Contributions
use yaadegar.Sqlstore.Matches
use yaadegar.World.{World}
use yaadegar.Api.{Runtime, Reply, Handler, with_tenant, on_not_found}

-- The outcomes of an authentication by token.
pub data Actor : Type 0 where
  unauthorized not_in_match action_token_expired : Actor
  actor_failed : Error → Actor
  actor : Contribution → Actor

expired_at : Time → Option Time → Bool
expired_at now none = false
expired_at now (some t) = not (ltb_ℤ now t)

by_action_token : Runtime → String → Result Contribution → Actor
unfolding expired_at
by_action_token rt match_id (err not_found) = Actor.unauthorized
by_action_token rt match_id (err e) = Actor.actor_failed e
by_action_token rt match_id (ok c) =
    if points_to c.match_id match_id
    then (if expired_at rt.now c.match_action_token_expires_at
        then Actor.action_token_expired
        else Actor.actor c)
    else Actor.not_in_match

-- The capability token; `ErrNotFound` on it goes on to the scoped token.
either_token : Runtime → String → String → String → Db → Result Contribution → Actor
unfolding by_action_token
either_token rt tenant match_id hash db (err not_found) =
    by_action_token rt match_id (Contributions.by_match_action_token_hash tenant hash db)
either_token rt tenant match_id hash db (err e) = Actor.actor_failed e
either_token rt tenant match_id hash db (ok c) =
    if points_to c.match_id match_id then Actor.actor c else Actor.not_in_match

unfoldable pub resolve_match_actor : Runtime → String → String → String → Db → Actor
unfolding either_token
resolve_match_actor rt tenant raw match_id db =
    if raw == ""
    then Actor.unauthorized
    else either_token rt tenant match_id (rt.hash raw) db
        (Contributions.by_token_hash tenant (rt.hash raw) db)

-- A match as a response shows it: the contacts only once both parties confirmed.
pub record MatchView : Type 0 where
  pub id : String
  pub item_id : String
  pub state : MatchState
  pub contribution_ids : List String
  pub contacts : Option (List String)

reveal : MatchState → List String → Option (List String)
reveal MatchState.both_confirmed contacts = some contacts
reveal _ contacts = none

unfoldable pub to_gen_match : Match → List String → MatchView
unfolding reveal
to_gen_match m contacts = record {
  id = m.id;
  item_id = m.item_id;
  state = m.state;
  contribution_ids = m.contribution_ids;
  contacts = reveal m.state contacts;
}

pub data MatchReply : Type 0 where
  refused : Reply → MatchReply
  shown : MatchView → MatchReply

-- The contacts are read one by one; the first failure ends the loop.
unfoldable pub gather_contacts : String → List String → Db → Result (List String)
gather_contacts tenant [] db = ok []
gather_contacts tenant (id ∷ ids) db = do
  let rest = gather_contacts tenant ids db
  cc ← Contributions.get tenant id db
  others ← rest
  ok (cc.contact_email ∷ others)

contacts_for : MatchState → String → List String → Db → Result (List String)
unfolding gather_contacts
contacts_for MatchState.both_confirmed tenant ids db = gather_contacts tenant ids db
contacts_for _ tenant ids db = ok []

show_with : Match → Result (List String) → MatchReply
show_with m (err e) = MatchReply.refused (Reply.failed e)
show_with m (ok contacts) = MatchReply.shown (to_gen_match m contacts)

show_match : String → Db → Result Match → MatchReply
unfolding show_with contacts_for
show_match tenant db (err e) = MatchReply.refused (on_not_found 404 "match not found" e)
show_match tenant db (ok m) = show_with m (contacts_for m.state tenant m.contribution_ids db)

match_for : String → String → Db → Actor → MatchReply
unfolding show_match
match_for tenant match_id db Actor.unauthorized =
    MatchReply.refused (Reply.problem 401 "invalid capability token")
match_for tenant match_id db Actor.not_in_match =
    MatchReply.refused (Reply.problem 404 "match not found")
match_for tenant match_id db Actor.action_token_expired =
    MatchReply.refused (Reply.problem 410 "this confirmation link has expired")
match_for tenant match_id db (Actor.actor_failed e) = MatchReply.refused (Reply.failed e)
match_for tenant match_id db (Actor.actor c) = show_match tenant db (Matches.get tenant match_id db)

unfoldable pub get_match : Runtime → Option String → String → String → World → MatchReply
unfolding match_for
get_match rt none raw match_id w = MatchReply.refused Reply.missing_context
get_match rt (some tenant) raw match_id w =
    match_for tenant match_id w.db (resolve_match_actor rt tenant raw match_id w.db)
