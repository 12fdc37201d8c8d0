-- ===== src/Tests/Signin.antt =====
-- Runs of the ticket guard and of the recovery of an account.
use yaadegar.Base.{List, true, false, ◌≡◌, refl, [], ◌∷◌, none, some, arith, string_discrete}
use yaadegar.Base.Int.{pos, ◌<ℤ◌, ◌+ℤ◌}
use yaadegar.Base.Table.{select_row, count_where, update_where, delete_where, All}
use yaadegar.Storage.{ok, UserRole}
use yaadegar.Tickets.{Call, InMemoryTicketGuard, consume, consume_all, evict}
use yaadegar.Tickets.Once.{consume-once}
use yaadegar.Accounts.{
  AccountDb, User, UserStatus, PasswordResetToken, AccessToken, get_user, reset_by_hash,
  confirm_reset, set_password, revoke_all_access_tokens,
}
use yaadegar.Accounts.Whole.{Outcome, confirm_reset-Recovered}
use yaadegar.Api.Recovery.{
  RecoveryRuntime, ResetBody, RecoveryReply, invalid_reset_token, hash_new_password,
  confirm_password_reset,
}
use yaadegar.Api.Recovery.Once.{confirm_password_reset-once}
use yaadegar.Tests.Fixtures.{after_hours}

abbrev guard : InMemoryTicketGuard
guard = record { jti = "j1"; exp = after_hours 2 } ∷ []

-- Another ticket is used in between.
abbrev between : List Call
between = record { now = after_hours 0; jti = "j2"; exp = after_hours 1 } ∷ []

consume_run : consume (after_hours 0) "j1" (after_hours 2) [] ≡ (true, guard)
unfolding consume evict select_row delete_where
consume_run = refl

in_time : All (λ c. c.now <ℤ after_hours 2) between
in_time = (omega arith, tt)

consume-once_example :
    (consume (after_hours 1) "j1" (after_hours 2) (consume_all between guard)).0 ≡ false
consume-once_example =
    consume-once (after_hours 0) (after_hours 2) (after_hours 2) (after_hours 1) "j1" between []
      guard consume_run in_time (omega arith)

abbrev invited : User
invited = record {
  id = "u1";
  tenant_id = "alice";
  name = "Alice";
  email = "a@example.com";
  username = none;
  password_hash = "";
  role = UserRole.owner;
  banned = false;
  is_admin = false;
  credential_version = pos 1;
  status = UserStatus.pending;
  owner_key = "";
  created_at = after_hours 0;
}

abbrev link : PasswordResetToken
link = record {
  id = "t1";
  tenant_id = "alice";
  user_id = "u1";
  token_hash = "h1";
  expires_at = after_hours 72;
  used_at = none;
  created_at = after_hours 0;
}

abbrev app : AccessToken
app = record {
  id = "a1";
  tenant_id = "alice";
  user_id = "u1";
  name = "phone";
  token_hash = "ah1";
  last4 = "abcd";
  created_at = after_hours 0;
  expires_at = none;
  last_used_at = none;
  revoked_at = none;
}

abbrev accounts : AccountDb
accounts = record { users = invited ∷ []; reset_tokens = link ∷ []; access_tokens = app ∷ [] }

abbrev recovered : AccountDb
recovered = record {
  users =
      record invited {
        password_hash = "argon";
        credential_version = pos 2;
        status = UserStatus.active;
      }
      ∷ [];
  reset_tokens = record link { used_at = some (after_hours 1) } ∷ [];
  access_tokens = record app { revoked_at = some (after_hours 1) } ∷ [];
}

reset_run :
    confirm_reset "alice" "t1" "u1" "argon" (after_hours 1) accounts ≡ ok ((true, 1), recovered)
unfolding confirm_reset set_password revoke_all_access_tokens select_row count_where update_where
    string_discrete ◌+ℤ◌
reset_run = refl

confirm_reset-Recovered_example : Outcome true "alice" "t1" "u1" "argon" 1 accounts recovered
confirm_reset-Recovered_example =
    confirm_reset-Recovered "alice" "t1" "u1" "argon" (after_hours 1) true 1 accounts recovered
      reset_run

abbrev recovery : RecoveryRuntime
recovery = record {
  now = after_hours 1;
  hash = λ raw. "h1";
  byte_length = λ s. 12;
  hash_password = λ s. some "argon";
  issue = λ u. some "jwt";
}

abbrev body : ResetBody
body = record { token = "raw"; new_password = "correct horse" }

recovery_run :
    confirm_password_reset recovery (some "alice") (some body) accounts
    ≡ (RecoveryReply.signed_in "jwt" 1, recovered)
unfolding confirm_password_reset hash_new_password reset_by_hash get_user confirm_reset set_password
    revoke_all_access_tokens select_row count_where update_where string_discrete ◌+ℤ◌
recovery_run = refl

confirm_password_reset-once_example :
    confirm_password_reset recovery (some "alice") (some body) recovered
    ≡ (invalid_reset_token, recovered)
unfolding string_discrete
confirm_password_reset-once_example =
    confirm_password_reset-once recovery recovery "alice" "jwt" 1 body body accounts recovered
      recovery_run refl refl
