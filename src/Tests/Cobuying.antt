-- ===== src/Tests/Cobuying.antt =====
-- Runs of the co-buying handlers.
use yaadegar.Base.{true, ◌≡◌, refl, [], ◌∷◌, some, string_discrete, points_to}
use yaadegar.Base.Table.{select_row, select_where}
use yaadegar.Storage.{ok, Contribution, ContributionStatus, Match, MatchState}
use yaadegar.Sqlstore.Contributions
use yaadegar.Sqlstore.Matches
use yaadegar.World.{World}
use yaadegar.Api.{Runtime}
use yaadegar.Api.Cobuying.{
  actor, resolve_match_actor, MatchView, shown, to_gen_match, gather_contacts, get_match,
}
use yaadegar.Api.Cobuying.Contacts.{get_match-contacts}
use yaadegar.Tests.Fixtures.{pledge, confirmed_pledge, proposal, db_pledged, runtime}

-- Both parties confirmed, and one of them asks.
abbrev complete : World
complete = record {
  db = record db_pledged {
    contributions = record pledge { status = ContributionStatus.confirmed } ∷ confirmed_pledge ∷ [];
    matches = record proposal { state = MatchState.both_confirmed } ∷ [];
    match_contributions =
        record { tenant_id = "alice"; match_id = "m1"; contribution_id = "c2" }
        ∷ record { tenant_id = "alice"; match_id = "m1"; contribution_id = "c1" }
        ∷ [];
  };
  sent = [];
}

abbrev party : Runtime
party = record runtime { hash = λ raw. "p1" }

abbrev seen : MatchView
seen = record {
  id = "m1";
  item_id = "i2";
  state = MatchState.both_confirmed;
  contribution_ids = "c2" ∷ "c1" ∷ [];
  contacts = some ("p@example.com" ∷ "p@example.com" ∷ []);
}

match_run : get_match party (some "alice") "raw" "m1" complete ≡ shown seen
unfolding get_match resolve_match_actor gather_contacts to_gen_match Contributions.by_token_hash
    Contributions.get_by Contributions.get Matches.get Matches.scan_match Matches.contribution_ids
    select_row select_where string_discrete
match_run = refl

get_match-contacts_example :
    ((c : Contribution) × (resolve_match_actor party "alice" "raw" "m1" complete.db ≡ actor c)
      × (points_to c.match_id "m1" ≡ true))
    × ((m : Match) × (Matches.get "alice" "m1" complete.db ≡ ok m)
        × (m.state ≡ MatchState.both_confirmed))
get_match-contacts_example =
    get_match-contacts party "alice" "raw" "m1" complete seen
      ("p@example.com" ∷ "p@example.com" ∷ []) match_run refl
