-- ===== src/Api/Dissolve.antt =====
-- `dissolveMatch`, `contributionByToken` and `WithdrawContribution` of internal/api/cobuying.go: how a
-- match falls apart, and how a party takes its pledge back.
pub mod Released
pub mod Declined
pub mod Withdrawal
use yaadegar.Base.{
  String, Bool, true, false, not, ◌==◌, List, [], ◌∷◌, ◌++◌, Option, none, some, map, if◌then◌else◌,
  concat,
}
use yaadegar.Storage.{
  Result, ok, err, Error, not_found, Time, Contribution, ContributionStatus, Item, GiftList, Match,
  MatchState,
}
use yaadegar.Email.{Message}
use yaadegar.Sqlstore.Db.{Db}
use yaadegar.Sqlstore.Contributions
use yaadegar.Sqlstore.Matches
use yaadegar.Sqlstore.Matches.{Confirmed}
use yaadegar.Sqlstore.Items
use yaadegar.Sqlstore.Lists
use yaadegar.World.{
  World, Flow, Act, stop, value, give, stop_with, stop_if, query, write, change, recast, ◌>>=◌,
  ◌>>◌,
}
use yaadegar.Api.{Server, Runtime, Reply, Handler, on_not_found, respond}
use yaadegar.Api.ThankYou.{ThankYouSubject, deliver_thank_you, send_or_forget}

-- A pledge that goes back to pending, out of its match and with no scoped token.
unfoldable pub reopen : String → Contribution → Act Error (Unit {0})
reopen tenant c = do
  _ ←
      write (λ e. e)
        (Contributions.update tenant
          (record c { status = ContributionStatus.pending; match_id = none }))
  write (λ e. e) (Contributions.set_match_action_token tenant c.id "" none)

-- A pledge that is gone is passed over.
reopen_found : String → Result Contribution → Act Error (Unit {0})
unfolding reopen
reopen_found tenant (ok c) = reopen tenant c
reopen_found tenant (err not_found) = give tt
reopen_found tenant (err e) = stop_with e

unfoldable pub reopen_id : String → String → Act Error (Unit {0})
unfolding reopen_found
reopen_id tenant id w = reopen_found tenant (Contributions.get tenant id w.db) w

unfoldable pub reopen_all : String → String → List String → Act Error (Unit {0})
unfolding reopen_id
reopen_all tenant except [] = give tt
reopen_all tenant except (id ∷ ids) = do
  let rest = reopen_all tenant except ids
  if id == except then give tt else reopen_id tenant id
  rest

unfoldable pub dissolve_match : String → Match → String → Act Error (Unit {0})
unfolding reopen_all
dissolve_match tenant m except = do
  reopen_all tenant except m.contribution_ids
  _ ← write (λ e. e) (Matches.update tenant (record m { state = MatchState.declined }))
  give tt

-- The pledge that the capability token belongs to, if it is the one that is named.
by_token : String → Result Contribution → World → Flow Reply Contribution × World
by_token id (err e) w = (stop (on_not_found 401 "invalid capability token" e), w)
by_token id (ok c) w =
    if not (c.id == id)
    then (stop (Reply.problem 404 "contribution not found"), w)
    else (value c, w)

unfoldable pub contribution_by_token : Runtime → String → String → String → Act Reply Contribution
unfolding by_token
contribution_by_token rt tenant id raw w =
    if raw == ""
    then (stop (Reply.problem 401 "invalid capability token"), w)
    else by_token id (Contributions.by_token_hash tenant (rt.hash raw) w.db) w

-- Only a match that is still proposed is dissolved.
leave_in : MatchState → String → Match → String → Act Reply (Unit {0})
leave_in MatchState.both_confirmed tenant m cid =
    stop_with (Reply.problem 409 "cannot withdraw after both parties confirmed")
leave_in MatchState.done tenant m cid =
    stop_with (Reply.problem 409 "cannot withdraw after both parties confirmed")
leave_in MatchState.proposed tenant m cid = recast Reply.failed (dissolve_match tenant m cid)
leave_in _ tenant m cid = give tt

leave_found : String → String → Result Match → Act Reply (Unit {0})
unfolding leave_in
leave_found tenant cid (ok m) = leave_in m.state tenant m cid
leave_found tenant cid (err not_found) = give tt
leave_found tenant cid (err e) = stop_with (Reply.failed e)

unfoldable pub leave_match : String → Contribution → Act Reply (Unit {0})
unfolding leave_found
leave_match tenant c w = elim c.match_id [
  | none ↦ (value tt, w)
  | some match_id ↦ leave_found tenant c.id (Matches.get tenant match_id w.db) w
]

withdraw : Runtime → String → String → String → Act Reply Reply
withdraw rt tenant id raw = do
  c ← contribution_by_token rt tenant id raw
  leave_match tenant c
  write (on_not_found 404 "contribution not found") (Contributions.delete tenant c.id)
  give Reply.no_content

unfoldable pub withdraw_contribution : Runtime → Option String → String → String → Handler
unfolding withdraw
withdraw_contribution rt none id raw w = (Reply.missing_context, w)
withdraw_contribution rt (some tenant) id raw w = respond (withdraw rt tenant id raw) w
