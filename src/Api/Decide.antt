-- ===== src/Api/Decide.antt =====
-- `ConfirmMatch` of internal/api/cobuying.go: a party of a match declines it or confirms it.
pub mod Parties
pub mod Shown
use yaadegar.Base.{
  String, Bool, true, false, not, ◌==◌, List, [], ◌∷◌, ◌++◌, Option, none, some, map, if◌then◌else◌,
  concat,
}
use yaadegar.Storage.{
  Result, ok, err, Error, not_found, Time, Contribution, ContributionStatus, Item, GiftList, Match,
  MatchState,
}
use yaadegar.Email.{Message}
use yaadegar.Sqlstore.Db.{Db}
use yaadegar.Sqlstore.Contributions
use yaadegar.Sqlstore.Matches
use yaadegar.Sqlstore.Matches.{Confirmed}
use yaadegar.Sqlstore.Items
use yaadegar.Sqlstore.Lists
use yaadegar.World.{
  World, Flow, Act, stop, value, give, stop_with, stop_if, query, write, change, recast, ◌>>=◌,
  ◌>>◌,
}
use yaadegar.Api.{Server, Runtime, Reply, Handler, on_not_found, respond}
use yaadegar.Api.ThankYou.{ThankYouSubject, deliver_thank_you, send_or_forget}
use yaadegar.Api.Cobuying.{Actor, MatchView, MatchReply, resolve_match_actor, to_gen_match}
use yaadegar.Api.Dissolve.{dissolve_match}
use yaadegar.Api.Reveal.{email_reveal, send_cobuy_thank_you}

abbrev pub failed_match : Error → MatchReply
failed_match e = MatchReply.refused (Reply.failed e)

-- The authentication of `ConfirmMatch`.
as_party : Actor → Flow MatchReply Contribution
as_party (Actor.actor c) = value c
as_party (Actor.actor_failed e) = stop (failed_match e)
as_party Actor.not_in_match =
    stop (MatchReply.refused (Reply.problem 404 "this token is not part of that match"))
as_party _ = stop (MatchReply.refused (Reply.problem 401 "invalid or expired token"))

unfoldable pub party : Runtime → String → String → String → Act MatchReply Contribution
unfolding as_party
party rt tenant raw match_id w = (as_party (resolve_match_actor rt tenant raw match_id w.db), w)

unfoldable pub decline : String → Contribution → Match → Act MatchReply MatchReply
decline tenant c m = do
  _ ←
      write failed_match
        (Contributions.update tenant (record c { status = ContributionStatus.declined }))
  write failed_match (Contributions.set_match_action_token tenant c.id "" none)
  recast failed_match (dissolve_match tenant m c.id)
  give (MatchReply.shown (to_gen_match (record m { state = MatchState.declined }) []))

unfoldable pub clear_tokens : String → List Contribution → Act Error (Unit {0})
clear_tokens tenant [] = give tt
clear_tokens tenant (c ∷ cs) = do
  let rest = clear_tokens tenant cs
  write (λ e. e) (Contributions.set_match_action_token tenant c.id "" none)
  rest

unfoldable pub revealed : Runtime → String → Match → Confirmed → Act MatchReply MatchReply
unfolding clear_tokens email_reveal send_cobuy_thank_you
revealed rt tenant m cf = do
  recast failed_match (clear_tokens tenant cf.contribs)
  change (email_reveal rt cf.contribs cf.contribs)
  change (send_cobuy_thank_you rt tenant m.item_id cf.contribs)
  give (MatchReply.shown (to_gen_match m (map (λ c. c.contact_email) cf.contribs)))

-- The contacts are shown, and the mail is sent, only to the call that completes the match.
after_confirm : Runtime → String → Match → Confirmed → Bool → Act MatchReply MatchReply
unfolding revealed
after_confirm rt tenant m cf true = revealed rt tenant m cf
after_confirm rt tenant m cf false = give (MatchReply.shown (to_gen_match m []))

unfoldable pub confirm : Runtime → String → Contribution → Match → Act MatchReply MatchReply
unfolding after_confirm
confirm rt tenant c m = do
  (m', cf) ← write failed_match (Matches.confirm_contribution tenant m.item_id m.id c.id)
  after_confirm rt tenant m' cf cf.completed_now

-- `declines` is a body whose decision is to decline.
decide_in : MatchState → Runtime → String → Bool → Contribution → Match → Act MatchReply MatchReply
unfolding decline confirm
decide_in MatchState.proposed rt tenant declines c m =
    if declines then decline tenant c m else confirm rt tenant c m
decide_in _ rt tenant declines c m =
    stop_with (MatchReply.refused (Reply.problem 409 "this match is already resolved"))

abbrev pub match_not_found : Error → MatchReply
match_not_found e = MatchReply.refused (on_not_found 404 "match not found" e)

decide : Runtime → String → String → String → Bool → Act MatchReply MatchReply
unfolding party decide_in
decide rt tenant raw match_id declines = do
  c ← party rt tenant raw match_id
  m ← query match_not_found (Matches.get tenant match_id)
  decide_in m.state rt tenant declines c m

abbrev pub answer : Flow MatchReply MatchReply × World → MatchReply × World
answer (stop r, w) = (r, w)
answer (value r, w) = (r, w)

unfoldable pub confirm_match :
    Runtime → Option String → String → String → Bool → World → MatchReply × World
unfolding decide
confirm_match rt none raw match_id declines w = (MatchReply.refused Reply.missing_context, w)
confirm_match rt (some tenant) raw match_id declines w =
    answer (decide rt tenant raw match_id declines w)
