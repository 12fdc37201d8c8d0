-- ===== src/Tests/Pledging.antt =====
-- Runs of the handlers that pledge, propose, withdraw and decide.
use yaadegar.Base.{false, ◌≡◌, refl, [], ◌∷◌, none, some, List, arith, string_discrete, ◌==◌}
use yaadegar.Base.Int.{pos, ◌+ℤ◌, ◌<ℤ◌, ◌≤ℤ◌}
use yaadegar.Base.Int64.{add64, wrap64}
use yaadegar.Base.Table.{select_row, select_where, count_where, update_where}
use yaadegar.Storage.{
  start_of_day, Contribution, ContributionStatus, Match, MatchState, Money, Item, GiftList,
}
use yaadegar.Sqlstore.Db.{MatchRow, sum}
use yaadegar.Sqlstore.Contributions
use yaadegar.Sqlstore.Contributions.{pledges, row}
use yaadegar.Sqlstore.Matches
use yaadegar.Sqlstore.Matches.{match_row}
use yaadegar.Sqlstore.Items
use yaadegar.Sqlstore.Lists
use yaadegar.World.{World, value}
use yaadegar.Api.{Reply}
use yaadegar.Api.Offer.{offer, list_disabled}
use yaadegar.Api.ThankYou.{send_or_forget}
use yaadegar.Api.Cobuying.{MatchView, to_gen_match}
use yaadegar.Api.Pledge.{
  PledgeBody, PledgeRequest, PledgeReply, create_contribution, maybe_propose_match, ids_of,
  pending_of, covered, set_tokens, email_match, expiry, check_body, check_item, pledge_row,
}
use yaadegar.Api.Offer.{OnOffer}
use yaadegar.Api.Pledge.Refused.{create_contribution-refused}
use yaadegar.Api.Pledge.Accepted.{Fundable, IsMade, create_contribution-accepts}
use yaadegar.Api.Pledge.Proposed.{maybe_propose_match-closes, waiting, pending_on}
use yaadegar.Tests.Fixtures.{pledge, db0, kettle, runtime, server, after_hours}

abbrev pending_pledge : Contribution
pending_pledge = record pledge {
  item_id = "i1";
  status = ContributionStatus.pending;
  match_id = none;
  match_action_token_hash = "";
}

abbrev second_pledge : Contribution
second_pledge = record pending_pledge {
  id = "c2";
  token_hash = "p2";
  contact_email = "q@example.com";
  pledged = record { amount_minor = pos 6000; currency = "EUR" };
}

-- The two pledges cover the price of the kettle.
abbrev two_pledges : World
two_pledges = record {
  db = record db0 { reservations = []; contributions = pending_pledge ∷ second_pledge ∷ [] };
  sent = [];
}

abbrev proposed_match : Match
proposed_match = record {
  id = "m9";
  tenant_id = "alice";
  item_id = "i1";
  state = MatchState.proposed;
  contribution_ids = "c1" ∷ "c2" ∷ [];
  created_at = after_hours 3;
}

abbrev proposed_world : World
proposed_world = (maybe_propose_match server runtime "alice" kettle two_pledges).1

proposal_run :
    maybe_propose_match server runtime "alice" kettle two_pledges
    ≡ (value (some proposed_match), proposed_world)
unfolding maybe_propose_match Contributions.list_by_item pending_of covered set_tokens email_match
    expiry Matches.create Matches.prep Matches.link_contributions
    Contributions.set_match_action_token Contributions.update_row select_row select_where
    count_where update_where string_discrete add64 wrap64 ◌+ℤ◌ send_or_forget
proposal_run = refl

positive : (pos 0 ≤ℤ pos 4000) × ((pos 0 ≤ℤ pos 6000) × Unit {0})
positive = (omega arith, (omega arith, tt))

maybe_propose_match-closes_example :
    ((price : Money) × (kettle.price ≡ some price)
      × (price.amount_minor ≤ℤ sum (pledges (waiting "alice" "i1" two_pledges.db))))
    × ((a : Contribution) × (b : Contribution) × (rest : List Contribution) × (waiting "alice" "i1"
            two_pledges.db
          ≡ a ∷ b ∷ rest))
    × (proposed_match.contribution_ids ≡ ids_of (waiting "alice" "i1" two_pledges.db))
    × ((r : MatchRow) × (select_row (match_row "alice" "m9") proposed_world.db.matches ≡ some r)
        × (r.item_id ≡ "i1")
        × (r.state ≡ MatchState.proposed))
    × (count_where (pending_on "alice" "i1") proposed_world.db.contributions ≡ 0)
unfolding pending_of select_where string_discrete ◌+ℤ◌
maybe_propose_match-closes_example =
    maybe_propose_match-closes server runtime "alice" kettle two_pledges proposed_world
      proposed_match proposal_run positive (omega arith)

-- A pledge of the rest of the price, by a body that the handler accepts.
abbrev rest_of_it : PledgeBody
rest_of_it = record {
  pledged = record { amount_minor = pos 6000; currency = "EUR" };
  giver_name = none;
  contact_email = "q@example.com";
}

abbrev to_kettle : PledgeRequest
to_kettle = record { share_slug = "slug"; item_id = "i1"; body = some rest_of_it }

abbrev one_pledge : World
one_pledge = record two_pledges {
  db = record two_pledges.db { contributions = pending_pledge ∷ [] };
}

abbrev after_creation : World
after_creation = (create_contribution server runtime (some "alice") to_kettle one_pledge).1

abbrev seen : MatchView
seen = record {
  id = "m9";
  item_id = "i1";
  state = MatchState.proposed;
  contribution_ids = "r9" ∷ "c1" ∷ [];
  contacts = none;
}

creation_run :
    create_contribution server runtime (some "alice") to_kettle one_pledge
    ≡ (PledgeReply.created "r9" "raw9" (some seen), after_creation)
unfolding create_contribution check_body check_item pledge_row offer list_disabled start_of_day
    Lists.get_by_slug Lists.get_by Items.get to_gen_match Contributions.create_within_capacity
    Contributions.prep Contributions.create_checked Contributions.insert maybe_propose_match
    Contributions.list_by_item pending_of covered set_tokens email_match expiry Matches.create
    Matches.prep Matches.link_contributions Contributions.set_match_action_token
    Contributions.update_row select_row select_where count_where update_where string_discrete add64
    wrap64 ◌+ℤ◌ send_or_forget
creation_run = refl

create_contribution-accepts_example :
    (b : PledgeBody) × (to_kettle.body ≡ some b)
    × ((pos 0 <ℤ b.pledged.amount_minor) × ((b.contact_email == "") ≡ false))
    × ((l : GiftList) × (it : Item) × (price : Money) × OnOffer "alice" runtime.now "slug" "i1"
          one_pledge.db l it
        × Fundable l it b price
        × IsMade runtime "alice" it b price "r9" "raw9" one_pledge.db)
create_contribution-accepts_example =
    create_contribution-accepts server runtime "alice" to_kettle one_pledge after_creation "r9"
      "raw9" (some seen) creation_run

-- A pledge of the whole price again would fund the kettle beyond its price.
abbrev too_much : PledgeRequest
too_much = record to_kettle {
  body =
      some (record rest_of_it { pledged = record { amount_minor = pos 10000; currency = "EUR" } });
}

abbrev overfunds : Reply
overfunds = Reply.problem 409 "this pledge would overfund the item"

refusal_run :
    create_contribution server runtime (some "alice") too_much one_pledge
    ≡ (PledgeReply.refused overfunds, one_pledge)
unfolding create_contribution check_body check_item pledge_row offer list_disabled start_of_day
    Lists.get_by_slug Lists.get_by Items.get Contributions.create_within_capacity Contributions.prep
    Contributions.create_checked select_row select_where count_where string_discrete add64 wrap64
    ◌+ℤ◌
refusal_run = refl

create_contribution-refused_example : one_pledge ≡ one_pledge
create_contribution-refused_example =
    create_contribution-refused server runtime (some "alice") too_much one_pledge one_pledge
      overfunds refusal_run
