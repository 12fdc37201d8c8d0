-- ===== src/Tests/Deciding.antt =====
-- Runs of the handlers that dissolve a match, withdraw a pledge and confirm a match.
use yaadegar.Base.{
  Bool, String, List, true, false, ◌≡◌, refl, [], ◌∷◌, some, string_discrete, points_to, ◌&&◌,
}
use yaadegar.Base.Table.{select_row, select_where, count_where, update_where, delete_where}
use yaadegar.Storage.{ok, Contribution, Match, MatchState}
use yaadegar.Sqlstore.Db.{MatchRow}
use yaadegar.Sqlstore.Contributions
use yaadegar.Sqlstore.Contributions.{row}
use yaadegar.Sqlstore.Matches
use yaadegar.Sqlstore.Matches.{match_row}
use yaadegar.Sqlstore.Matches.Found.{is_proposed_at}
use yaadegar.Sqlstore.Items
use yaadegar.Sqlstore.Lists
use yaadegar.World.{World, value}
use yaadegar.Api.{Runtime, Reply}
use yaadegar.Api.ThankYou.{send_or_forget, deliver_thank_you}
use yaadegar.Api.Cobuying.{actor, resolve_match_actor, MatchView, MatchReply, to_gen_match}
use yaadegar.Api.Dissolve.{
  reopen, reopen_id, reopen_all, dissolve_match, contribution_by_token, leave_match,
  withdraw_contribution,
}
use yaadegar.Api.Dissolve.Declined.{Fate, listed, dissolve_match-releases}
use yaadegar.Api.Dissolve.Withdrawal.{withdraw_contribution-resolves}
use yaadegar.Api.Reveal.{email_reveal, thank_each, send_cobuy_thank_you}
use yaadegar.Api.Decide.{party, clear_tokens, revealed, confirm, confirm_match}
use yaadegar.Api.Decide.Parties.{addresses, unconfirmed}
use yaadegar.Api.Decide.Shown.{confirm_match-contacts}
use yaadegar.Tests.Fixtures.{db_pledged, runtime, after_hours}

-- The lamp has a match of two pledges, of which the second is confirmed.
abbrev matched : World
matched = record {
  db = record db_pledged {
    match_contributions =
        record { tenant_id = "alice"; match_id = "m1"; contribution_id = "c2" }
        ∷ record { tenant_id = "alice"; match_id = "m1"; contribution_id = "c1" }
        ∷ [];
  };
  sent = [];
}

abbrev the_match : Match
the_match = record {
  id = "m1";
  tenant_id = "alice";
  item_id = "i2";
  state = MatchState.proposed;
  contribution_ids = "c2" ∷ "c1" ∷ [];
  created_at = after_hours 0;
}

-- The holder of the token of the first pledge.
abbrev first : Runtime
first = record runtime { hash = λ raw. "p1" }

abbrev dissolved : World
dissolved = (dissolve_match "alice" the_match "c1" matched).1

dissolve_run : dissolve_match "alice" the_match "c1" matched ≡ (value tt, dissolved)
unfolding dissolve_match reopen_all reopen_id reopen Contributions.get Contributions.get_by
    Contributions.update Contributions.update_row Contributions.set_match_action_token
    Matches.update Matches.get Matches.scan_match Matches.contribution_ids select_row select_where
    count_where update_where string_discrete
dissolve_run = refl

dissolve_match-releases_example :
    ((r : MatchRow) × (select_row (match_row "alice" "m1") dissolved.db.matches ≡ some r)
      × (r.state ≡ MatchState.declined))
    × Fate (listed "c1" "c2" the_match.contribution_ids) "alice" "c2" matched.db dissolved.db
dissolve_match-releases_example =
    dissolve_match-releases "alice" the_match "c1" "c2" matched dissolved dissolve_run

abbrev withdrawn : World
withdrawn = (withdraw_contribution first (some "alice") "c1" "raw" matched).1

withdraw_run :
    withdraw_contribution first (some "alice") "c1" "raw" matched ≡ (Reply.no_content, withdrawn)
unfolding withdraw_contribution contribution_by_token leave_match Contributions.by_token_hash
    Contributions.delete dissolve_match reopen_all reopen_id reopen Contributions.get
    Contributions.get_by Contributions.update Contributions.update_row
    Contributions.set_match_action_token Matches.update Matches.get Matches.scan_match
    Matches.contribution_ids select_row select_where count_where update_where delete_where
    string_discrete
withdraw_run = refl

withdraw_contribution-resolves_example :
    (c : Contribution) × (Contributions.by_token_hash "alice" "p1" matched.db ≡ ok c)
    × (c.id ≡ "c1")
    × (count_where (row "alice" "c1") withdrawn.db.contributions ≡ 0)
    × ((points_to c.match_id "m1" && is_proposed_at "alice" "m1" withdrawn.db) ≡ false)
withdraw_contribution-resolves_example =
    withdraw_contribution-resolves first "alice" "c1" "raw" "m1" matched withdrawn withdraw_run

abbrev confirmed : World
confirmed = (confirm_match first (some "alice") "raw" "m1" false matched).1

abbrev both : List String
both = "p@example.com" ∷ "p@example.com" ∷ []

abbrev agreed : MatchView
agreed = record {
  id = "m1";
  item_id = "i2";
  state = MatchState.both_confirmed;
  contribution_ids = "c2" ∷ "c1" ∷ [];
  contacts = some both;
}

confirm_run :
    confirm_match first (some "alice") "raw" "m1" false matched
    ≡ (MatchReply.shown agreed, confirmed)
unfolding confirm_match party confirm revealed clear_tokens email_reveal send_cobuy_thank_you
    thank_each resolve_match_actor Contributions.by_token_hash Contributions.get_by Matches.get
    Matches.scan_match Matches.contribution_ids Matches.confirm_contribution Matches.confirm_locked
    Contributions.set_match_action_token Contributions.update_row to_gen_match send_or_forget
    deliver_thank_you Items.get Lists.get Lists.get_by select_row select_where count_where
    update_where string_discrete
confirm_run = refl

confirm_match-contacts_example :
    (◌≡◌ {A = Bool} false false)
    × ((c : Contribution) × (resolve_match_actor first "alice" "raw" "m1" matched.db ≡ actor c)
        × (points_to c.match_id "m1" ≡ true))
    × (both ≡ addresses "alice" "m1" confirmed.db)
    × (count_where (unconfirmed "alice" "m1") confirmed.db.contributions ≡ 0)
confirm_match-contacts_example =
    confirm_match-contacts first "alice" "raw" "m1" false matched confirmed agreed both confirm_run
      refl
