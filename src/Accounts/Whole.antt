-- ===== src/Accounts/Whole.antt =====
-- What `ConfirmReset` of internal/storage/sqlstore/passwordreset.go leaves of an account.
use yaadegar.Base.{
  ℕ, zero, String, Bool, true, false, not, ◌&&◌, ◌||◌, ◌==◌, ◌≡◌, refl, List, [], ◌∷◌, some, ltb,
  arith,
}
use yaadegar.Base.Table.{count_where, update_where}
use yaadegar.Base.Table.Count.{count-update_all}
use yaadegar.Storage.{ok, Time}
use yaadegar.Accounts.{
  AccountDb, User, user_row, unused_row, claim, standing, is_pending, activate, set_password,
  revoke_all_access_tokens, confirm_reset,
}

-- An account that the recovery has not reached: another password, or not active.
abbrev pub unrecovered : String → String → String → User → Bool
unrecovered tenant id hash u =
    user_row tenant id u && (not (u.password_hash == hash) || is_pending u.status)

-- What a recovery leaves: the account has the password and is active, no token of it stands, and the
-- link is used up.
pub record Recovered (tenant token_id user_id hash : String) (db : AccountDb) : Type 0 where
  pub account : count_where (unrecovered tenant user_id hash) db.users ≡ 0
  pub access : count_where (standing tenant user_id) db.access_tokens ≡ 0
  pub link : count_where (unused_row tenant token_id) db.reset_tokens ≡ 0

recovered-users :
    (tenant id hash : String) (us : List User)
    → count_where (unrecovered tenant id hash) (
        update_where
          (λ u. user_row tenant id u && is_pending u.status)
          activate
          (update_where (user_row tenant id) (set_password hash) us))
      ≡ 0
unfolding count_where update_where set_password
recovered-users tenant id hash [] = refl
recovered-users tenant id hash (u ∷ us) = ground (arith, recovered-users tenant id hash us)

-- What becomes of the tables, by whether the link was claimed.
abbrev pub Outcome : Bool → String → String → String → String → ℕ → AccountDb → AccountDb → Type 0
Outcome true tenant token_id user_id hash revoked db db' =
    Recovered tenant token_id user_id hash db'
    × (revoked ≡ count_where (standing tenant user_id) db.access_tokens)
    × (ltb zero (count_where (unused_row tenant token_id) db.reset_tokens) ≡ true)
Outcome false tenant token_id user_id hash revoked db db' = db' ≡ db

committed :
    (tenant token_id user_id hash : String) (at : Time) (revoked : ℕ) (db db' : AccountDb)
    → confirm_reset tenant token_id user_id hash at db ≡ ok ((true, revoked), db')
    → (revoked ≡ count_where (standing tenant user_id) db.access_tokens)
      × (ltb zero (count_where (unused_row tenant token_id) db.reset_tokens) ≡ true)
      × (db' ≡ record db {
        users =
            update_where
              (λ u. user_row tenant user_id u && is_pending u.status)
              activate
              (update_where (user_row tenant user_id) (set_password hash) db.users);
        access_tokens =
            update_where
              (standing tenant user_id)
              (λ t. record t { revoked_at = some at })
              db.access_tokens;
        reset_tokens = claim tenant token_id at db.reset_tokens;
      })
unfolding confirm_reset revoke_all_access_tokens
committed tenant token_id user_id hash at revoked db db' h = ground arith

-- The recovery of an account is done as a whole or not at all. When it is done the link was unused and
-- is used up, the account has the new password and is active, and no personal access token of it
-- stands: as many as stood are reported revoked. Otherwise nothing has changed.
pub confirm_reset-Recovered :
    (tenant token_id user_id hash : String) (at : Time) (claimed : Bool) (revoked : ℕ)
    (db db' : AccountDb)
    → confirm_reset tenant token_id user_id hash at db ≡ ok ((claimed, revoked), db')
    → Outcome claimed tenant token_id user_id hash revoked db db'
unfolding confirm_reset
confirm_reset-Recovered tenant token_id user_id hash at true revoked db db' h =
    let (counted, gate, now) = committed tenant token_id user_id hash at revoked db db' h in
    let left : Recovered tenant token_id user_id hash db' = rw now (record {
      account = recovered-users tenant user_id hash db.users;
      access =
          count-update_all (standing tenant user_id) (standing tenant user_id)
            (λ t. record t { revoked_at = some at }) db.access_tokens (λ t hit. ground arith)
            (λ t miss. miss);
      link =
          count-update_all (unused_row tenant token_id) (unused_row tenant token_id)
            (λ t. record t { used_at = some at }) db.reset_tokens (λ t hit. ground arith)
            (λ t miss. miss);
    }) in
    (left, counted, gate)
confirm_reset-Recovered tenant token_id user_id hash at false revoked db db' h = ground arith
