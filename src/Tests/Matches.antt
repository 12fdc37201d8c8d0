-- ===== src/Tests/Matches.antt =====
-- Runs of the matches and of their sweep.
use yaadegar.Base.{◌&&◌, ◌≡◌, refl, [], ◌∷◌, true, string_discrete}
use yaadegar.Base.Int.{pos, ◌-ℤ◌}
use yaadegar.Base.Table.{select_row, select_where, count_where, update_where}
use yaadegar.Storage.{ok, Match, MatchState, ContributionStatus, Duration, is_open}
use yaadegar.Sqlstore.Db.{Db}
use yaadegar.Sqlstore.Matches.{
  Confirmed, confirm_contribution, confirm_locked, expire_if_proposed, expire_locked, get,
  scan_match, contribution_ids, spend, on_match, fully_confirmed,
}
use yaadegar.Sqlstore.Matches.Resolution.{
  Call, Resolved, perform_all, perform_all-Resolved, confirm_contribution-completes,
  expire_if_proposed-Resolved, view,
}
use yaadegar.Cobuy.{sweep}
use yaadegar.Cobuy.Due.{sweep-view}
use yaadegar.Cobuy.Dissolved.{sweep-Resolved}
use yaadegar.Tests.Fixtures.{after_hours, pledge, confirmed_pledge, proposal, db_pledged}

-- The first pledge is confirmed, the second was, and the match is complete.
abbrev db_complete : Db
db_complete = record db_pledged {
  contributions = record pledge { status = ContributionStatus.confirmed } ∷ confirmed_pledge ∷ [];
  matches = record proposal { state = MatchState.both_confirmed } ∷ [];
}

abbrev completed : Confirmed
completed = record { contribs = db_complete.contributions; completed_now = true }

abbrev complete_match : Match
complete_match = record {
  id = "m1";
  tenant_id = "alice";
  item_id = "i2";
  state = MatchState.both_confirmed;
  contribution_ids = [];
  created_at = after_hours 0;
}

confirm_run :
    confirm_contribution "alice" "i2" "m1" "c1" db_pledged
    ≡ ok ((complete_match, completed), db_complete)
unfolding confirm_contribution confirm_locked get scan_match contribution_ids select_row
    select_where count_where update_where string_discrete
confirm_run = refl

confirm_contribution-completes_example :
    (completed.contribs ≡ select_where (on_match "alice" "m1") db_complete.contributions)
    × (fully_confirmed completed.contribs ≡ true)
    × Resolved "alice" "m1" db_complete
confirm_contribution-completes_example =
    confirm_contribution-completes "alice" "i2" "m1" "c1" db_pledged db_complete completed
      complete_match confirm_run refl

complete-Resolved : Resolved "alice" "m1" db_complete
unfolding select_row string_discrete
complete-Resolved = (record proposal { state = MatchState.both_confirmed }, refl, refl)

perform_all-Resolved_example :
    perform_all "alice" "i2" "m1" (Call.expires ∷ Call.confirms "c1" ∷ []) db_complete ≡ db_complete
perform_all-Resolved_example =
    perform_all-Resolved "alice" "i2" "m1" (Call.expires ∷ Call.confirms "c1" ∷ []) db_complete
      complete-Resolved

abbrev db_expired : Db
db_expired = record db_pledged {
  contributions = spend pledge ∷ spend confirmed_pledge ∷ [];
  matches = record proposal { state = MatchState.expired } ∷ [];
}

expire_run : expire_if_proposed "alice" "i2" "m1" db_pledged ≡ ok (true, db_expired)
unfolding expire_if_proposed expire_locked select_row update_where string_discrete
expire_run = refl

expire_if_proposed-Resolved_example :
    Resolved "alice" "m1" db_expired
    × (count_where (λ c. on_match "alice" "m1" c && is_open c.status) db_expired.contributions ≡ 0)
expire_if_proposed-Resolved_example =
    expire_if_proposed-Resolved "alice" "i2" "m1" db_pledged db_expired expire_run

-- A window of a day, three days later.
abbrev day : Duration
day = pos 86_400_000_000_000

sweep-Resolved_example : Resolved "alice" "m1" (sweep day (after_hours 72) db_pledged)
unfolding select_row string_discrete ◌-ℤ◌
sweep-Resolved_example =
    sweep-Resolved "alice" "m1" day (after_hours 72) db_pledged proposal refl refl refl refl refl

-- An hour later nothing is due.
sweep-view_example :
    view "alice" "m1" (sweep day (after_hours 1) db_pledged) ≡ view "alice" "m1" db_pledged
unfolding count_where string_discrete ◌-ℤ◌
sweep-view_example = sweep-view "alice" "m1" day (after_hours 1) db_pledged refl
