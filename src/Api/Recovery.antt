-- ===== src/Api/Recovery.antt =====
-- `ConfirmPasswordReset` of internal/api/passwordreset.go: a new password by an emailed link. The
-- request of a link is not modelled.
pub mod Once
use yaadegar.Base.{
  ℕ, String, Bool, true, false, not, ◌==◌, ◌||◌, Option, none, some, if◌then◌else◌, is_some, ltb,
}
use yaadegar.Base.Int.{ltb_ℤ}
use yaadegar.Storage.{Result, ok, err, Error, not_found, other, Time}
use yaadegar.Accounts.{AccountDb, User, PasswordResetToken, get_user, reset_by_hash, confirm_reset}
use yaadegar.Api.{Reply}

-- What the handler takes from outside: the clock, the hash of a token, the length in bytes, argon2
-- with its random salt, and the signing of a session.
pub record RecoveryRuntime : Type 0 where
  pub now : Time
  pub hash : String → String
  pub byte_length : String → ℕ
  pub hash_password : String → Option String
  pub issue : User → Option String

pub record ResetBody : Type 0 where
  pub token : String
  pub new_password : String

-- A refusal, or a session with the number of tokens that were revoked.
pub data RecoveryReply : Type 0 where
  refused : Reply → RecoveryReply
  signed_in : String → ℕ → RecoveryReply

abbrev pub invalid_reset_token : RecoveryReply
invalid_reset_token =
    RecoveryReply.refused (Reply.problem 400 "this reset link is invalid or has expired")

-- `HashNewPassword`, with the policy: at least eight bytes.
pub data NewPassword : Type 0 where
  too_short hash_failed : NewPassword
  hashed : String → NewPassword

or_failed : Option String → NewPassword
or_failed none = NewPassword.hash_failed
or_failed (some h) = NewPassword.hashed h

unfoldable pub hash_new_password : RecoveryRuntime → String → NewPassword
unfolding or_failed
hash_new_password rt plain =
    if ltb (rt.byte_length plain) 8
    then NewPassword.too_short
    else or_failed (rt.hash_password plain)

abbrev pub session : Option String → ℕ → RecoveryReply
session none revoked = RecoveryReply.refused (Reply.failed other)
session (some tok) revoked = RecoveryReply.signed_in tok revoked

abbrev pub sign_in : RecoveryRuntime → ℕ → Result User → RecoveryReply
sign_in rt revoked (err e) = RecoveryReply.refused (Reply.failed e)
sign_in rt revoked (ok u) = session (rt.issue u) revoked

-- What follows the transaction: a failure there does not undo it.
after_reset :
    RecoveryRuntime
    → String
    → String
    → AccountDb
    → Result ((Bool × ℕ) × AccountDb)
    → RecoveryReply × AccountDb
after_reset rt tenant user_id db (err e) = (RecoveryReply.refused (Reply.failed e), db)
after_reset rt tenant user_id db (ok ((false, revoked), db')) = (invalid_reset_token, db')
after_reset rt tenant user_id db (ok ((true, revoked), db')) =
    (sign_in rt revoked (get_user tenant user_id db'), db')

with_password :
    RecoveryRuntime
    → String
    → PasswordResetToken
    → NewPassword
    → AccountDb
    → RecoveryReply × AccountDb
unfolding after_reset
with_password rt tenant t NewPassword.too_short db =
    (RecoveryReply.refused (Reply.problem 400 "the new password must be at least 8 characters"), db)
with_password rt tenant t NewPassword.hash_failed db =
    (RecoveryReply.refused (Reply.failed other), db)
with_password rt tenant t (NewPassword.hashed h) db =
    after_reset rt tenant t.user_id db (confirm_reset tenant t.id t.user_id h rt.now db)

-- The password is checked before the link is used up.
by_link :
    RecoveryRuntime
    → String
    → String
    → Result PasswordResetToken
    → AccountDb
    → RecoveryReply × AccountDb
unfolding with_password hash_new_password
by_link rt tenant plain (err not_found) db = (invalid_reset_token, db)
by_link rt tenant plain (err e) db = (RecoveryReply.refused (Reply.failed e), db)
by_link rt tenant plain (ok t) db =
    if is_some t.used_at || not (ltb_ℤ rt.now t.expires_at)
    then (invalid_reset_token, db)
    else with_password rt tenant t (hash_new_password rt plain) db

abbrev pub lacks : ResetBody → Bool
lacks b = b.token == "" || b.new_password == ""

abbrev pub missing_fields : RecoveryReply
missing_fields = RecoveryReply.refused (Reply.problem 400 "token and new_password are required")

unfoldable pub confirm_password_reset :
    RecoveryRuntime → Option String → Option ResetBody → AccountDb → RecoveryReply × AccountDb
unfolding by_link
confirm_password_reset rt none body db = (RecoveryReply.refused Reply.missing_context, db)
confirm_password_reset rt (some tenant) none db = (missing_fields, db)
confirm_password_reset rt (some tenant) (some b) db =
    if lacks b
    then (missing_fields, db)
    else by_link rt tenant b.new_password (reset_by_hash tenant (rt.hash b.token) db) db
