-- ===== src/Accounts.antt =====
-- The accounts of a tenant and their recovery: internal/storage/sqlstore/passwordreset.go, `Get` of
-- users.go and `revokeAllAccessTokens` of accesstokens.go.
pub mod Whole
use yaadegar.Base.{
  ℕ, zero, suc, String, Bool, true, false, not, ◌&&◌, ◌||◌, ◌==◌, List, [], ◌∷◌, Option, none, some,
  if◌then◌else◌, is_some, ltb,
}
use yaadegar.Base.Int.{ℤ, pos, ◌+ℤ◌, ltb_ℤ}
use yaadegar.Base.Table.{select_row, count_where, update_where}
use yaadegar.Storage.{
  Result, ok, err, ◌>>=◌, ◌>>◌, Error, other, not_found, refuse, or_not_found, Time, is_zero_time,
  UserRole,
}

pub data UserStatus : Type 0 where
  active pending : UserStatus

pub record User : Type 0 where
  pub id : String
  pub tenant_id : String
  pub name : String
  pub email : String
  pub username : Option String
  pub password_hash : String
  pub role : UserRole
  pub banned : Bool
  pub is_admin : Bool
  pub credential_version : ℤ
  pub status : UserStatus
  pub owner_key : String
  pub created_at : Time

pub record PasswordResetToken : Type 0 where
  pub id : String
  pub tenant_id : String
  pub user_id : String
  pub token_hash : String
  pub expires_at : Time
  pub used_at : Option Time
  pub created_at : Time

pub record AccessToken : Type 0 where
  pub id : String
  pub tenant_id : String
  pub user_id : String
  pub name : String
  pub token_hash : String
  pub last4 : String
  pub created_at : Time
  pub expires_at : Option Time
  pub last_used_at : Option Time
  pub revoked_at : Option Time

-- The tables that a recovery touches.
pub record AccountDb : Type 0 where
  pub users : List User
  pub reset_tokens : List PasswordResetToken
  pub access_tokens : List AccessToken

abbrev pub user_row : String → String → User → Bool
user_row tenant id u = u.tenant_id == tenant && u.id == id

unfoldable pub get_user : String → String → AccountDb → Result User
get_user tenant id db = or_not_found (select_row (user_row tenant id) db.users)

-- `Create` of the reset tokens: PRIMARY KEY (id), UNIQUE (token_hash).
unfoldable pub create_reset :
    String
    → String
    → Time
    → PasswordResetToken
    → AccountDb
    → Result (PasswordResetToken × AccountDb)
create_reset tenant new_id now t db = do
  let t' = record t {
    id = if t.id == "" then new_id else t.id;
    created_at = if is_zero_time t.created_at then now else t.created_at;
    tenant_id = tenant;
  }
  refuse
      (is_some (select_row (λ r. r.id == t'.id || r.token_hash == t'.token_hash) db.reset_tokens))
      other
  ok (t', record db { reset_tokens = t' ∷ db.reset_tokens })

abbrev pub hash_row : String → String → PasswordResetToken → Bool
hash_row tenant hash t = t.tenant_id == tenant && t.token_hash == hash

unfoldable pub reset_by_hash : String → String → AccountDb → Result PasswordResetToken
reset_by_hash tenant hash db = or_not_found (select_row (hash_row tenant hash) db.reset_tokens)

-- `WHERE tenant_id = ? AND id = ? AND used_at IS NULL`
abbrev pub unused_row : String → String → PasswordResetToken → Bool
unused_row tenant id t = t.tenant_id == tenant && t.id == id && not (is_some t.used_at)

abbrev pub claim : String → String → Time → List PasswordResetToken → List PasswordResetToken
claim tenant id at = update_where (unused_row tenant id) (λ t. record t { used_at = some at })

unfoldable pub mark_used : String → String → Time → AccountDb → Result (Bool × AccountDb)
mark_used tenant id at db =
    if ltb zero (count_where (unused_row tenant id) db.reset_tokens)
    then ok (true, record db { reset_tokens = claim tenant id at db.reset_tokens })
    else (if ltb zero (count_where (λ t. t.tenant_id == tenant && t.id == id) db.reset_tokens)
        then ok (false, db)
        else err not_found)

-- `WHERE tenant_id = ? AND user_id = ? AND revoked_at IS NULL`
abbrev pub standing : String → String → AccessToken → Bool
standing tenant user t = t.tenant_id == tenant && t.user_id == user && not (is_some t.revoked_at)

unfoldable pub revoke_all_access_tokens :
    String → String → Time → List AccessToken → ℕ × List AccessToken
revoke_all_access_tokens tenant user at ts = (
  count_where (standing tenant user) ts,
  update_where (standing tenant user) (λ t. record t { revoked_at = some at }) ts,
)

abbrev pub is_pending : UserStatus → Bool
is_pending UserStatus.pending = true
is_pending UserStatus.active = false

unfoldable pub set_password : String → User → User
set_password hash u = record u {
  password_hash = hash;
  credential_version = u.credential_version +ℤ pos 1;
}

abbrev pub activate : User → User
activate u = record u { status = UserStatus.active }

-- The transaction, up to its commit gate. When the token is used already everything is rolled back.
unfoldable pub confirm_reset :
    String → String → String → String → Time → AccountDb → Result ((Bool × ℕ) × AccountDb)
unfolding set_password revoke_all_access_tokens
confirm_reset tenant token_id user_id hash at db =
    if not (is_some (select_row (user_row tenant user_id) db.users))
    then err not_found
    else (let with_password = update_where (user_row tenant user_id) (set_password hash) db.users in
        let users =
          update_where (λ u. user_row tenant user_id u && is_pending u.status) activate
            with_password in
        let (revoked, tokens) = revoke_all_access_tokens tenant user_id at db.access_tokens in
        if ltb zero (count_where (unused_row tenant token_id) db.reset_tokens)
        then ok (
          (true, revoked),
          record db {
            users = users;
            access_tokens = tokens;
            reset_tokens = claim tenant token_id at db.reset_tokens;
          },
        )
        else ok ((false, 0), db))
