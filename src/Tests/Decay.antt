-- ===== src/Tests/Decay.antt =====
-- Runs of the decay sweep.
use yaadegar.Base.{List, some, ◌++◌, ◌≡◌, refl, [], ◌∷◌, arith, string_discrete}
use yaadegar.Base.Int.{◌-ℤ◌, ◌*ℤ◌}
use yaadegar.Base.Int64.{mul64, wrap64, sub_time}
use yaadegar.Base.Table.{select_row, select_where, update_where}
use yaadegar.Storage.{ReservationState-discrete}
use yaadegar.Settings.{resolve_minutes}
use yaadegar.Sqlstore.Reservations.{
  set_expired, set_notified, mark_reserver_notified, expire_pending, transition_state,
}
use yaadegar.Decay.{
  Env, sweep, candidate, candidates, confirm_waits, decay_waits, notify_reserver, apply_move, step,
  steps,
}
use yaadegar.Decay.Rows.{swept}
use yaadegar.Decay.Rows.Sweep.{sweep_rows, rows_after, mail}
use yaadegar.Email.{Message}
use yaadegar.Decay.Rows.Outcomes.{Passes, sweep-Passes}
use yaadegar.Decay.Rows.Archived.{on_archived, without_archived, sweep-archived}
use yaadegar.Decay.Rows.Deadline.{swept-confirm_deadline}
use yaadegar.Api.Deadline.{confirm_deadline}
use yaadegar.Api.Deadline.Enforced.{waits_until}
use yaadegar.Base.{if◌then◌else◌}
use yaadegar.Decay.Rows.Idempotent.{Repeats, sweep-sweep}
use yaadegar.Tests.Fixtures.{
  gifts, kettle, shelved, held, unconfirmed, on_shelved, db0, distinct, server, world0, config, env,
}

-- The active reservation is chased, the unconfirmed one is freed, the archived one stays.
sweep_run :
    (sweep config env world0).db.reservations
    ≡ set_notified env.now "hk" "hq" held ∷ set_expired env.now unconfirmed ∷ on_shelved ∷ []
unfolding sweep steps step candidates candidate confirm_waits decay_waits mark_reserver_notified
    expire_pending notify_reserver apply_move resolve_minutes mul64 wrap64 sub_time ◌-ℤ◌ ◌*ℤ◌
    select_row update_where string_discrete ReservationState-discrete transition_state
sweep_run = refl

sweep_rows_example : sweep config env world0 ≡ record {
  db = record db0 {
    reservations = rows_after config env (gifts ∷ []) (kettle ∷ shelved ∷ []) db0.reservations;
  };
  sent = mail config env (gifts ∷ []) (kettle ∷ shelved ∷ []) db0.reservations;
}
sweep_rows_example = sweep_rows config env world0 distinct

-- The second run mints other tokens.
abbrev env_again : Env
env_again = record env {
  keep_token = λ id. some ("k2", "hk2");
  release_token = λ id. some ("q2", "hq2");
}

repeated : Repeats config env env_again
unfolding notify_reserver
repeated = record { same_instant = refl; no_more_mail = λ c h. ground arith }

sweep-sweep_example : sweep config env_again (sweep config env world0) ≡ sweep config env world0
sweep-sweep_example = sweep-sweep config env env_again world0 repeated distinct (omega arith)

sweep-Passes_example :
    (ms : List Message) × Passes config env world0.db.reservations
      (sweep config env world0).db.reservations
      ms
    × ((sweep config env world0).sent ≡ world0.sent ++ ms)
sweep-Passes_example = sweep-Passes config env world0 distinct

sweep-archived_example :
    (select_where (on_archived db0.items) (sweep config env world0).db.reservations
      ≡ select_where (on_archived db0.items) db0.reservations)
    × ((sweep config env world0).sent ≡ (sweep config env (without_archived world0)).sent)
sweep-archived_example = sweep-archived config env world0 distinct

swept-confirm_deadline_example : swept config env (gifts ∷ []) (kettle ∷ []) unconfirmed ≡ (
    if waits_until env.now (confirm_deadline server gifts unconfirmed)
    then (unconfirmed, [])
    else (set_expired env.now unconfirmed, []))
unfolding select_row string_discrete
swept-confirm_deadline_example =
    swept-confirm_deadline server config env (gifts ∷ []) (kettle ∷ []) unconfirmed kettle gifts
      refl (omega arith) refl refl refl refl refl
