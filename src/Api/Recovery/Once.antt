-- ===== src/Api/Recovery/Once.antt =====
-- `ConfirmPasswordReset` of internal/api/passwordreset.go, called twice with one reset link.
use yaadegar.Base.{
  List, ℕ, String, true, false, ◌≡◌, refl, ap, ◌∙◌, some, is_some, arith, Option-cases, inl, inr,
}
use yaadegar.Base.Table.{select_row}
use yaadegar.Base.Table.Count.{select_row-update, select_row-holds}
use yaadegar.Storage.{ok, Time}
use yaadegar.Accounts.{
  AccountDb, PasswordResetToken, hash_row, unused_row, claim, reset_by_hash, confirm_reset,
}
use yaadegar.Api.Recovery.{
  RecoveryRuntime, ResetBody, RecoveryReply, invalid_reset_token, with_password, after_reset,
  by_link, lacks, confirm_password_reset,
}

-- A link that opened a session was unused, and its row is the one that was claimed.
signed-claims :
    (rt : RecoveryRuntime) (tenant plain tok : String) (n : ℕ) (t : PasswordResetToken)
    (db db' : AccountDb)
    → by_link rt tenant plain (ok t) db ≡ (RecoveryReply.signed_in tok n, db')
    → (is_some t.used_at ≡ false) × (db'.reset_tokens ≡ claim tenant t.id rt.now db.reset_tokens)
unfolding by_link with_password after_reset confirm_reset
signed-claims rt tenant plain tok n t db db' h = ground arith

-- A claimed row is found again, and is used.
claimed-found :
    (tenant hash : String) (at : Time) (ts : List PasswordResetToken) (t : PasswordResetToken)
    → select_row (hash_row tenant hash) ts ≡ some t
    → is_some t.used_at ≡ false
    → select_row (hash_row tenant hash) (claim tenant t.id at ts)
      ≡ some (record t { used_at = some at })
claimed-found tenant hash at ts t found fresh =
    let after =
      select_row-update (hash_row tenant hash) (unused_row tenant t.id)
        (λ r. record r { used_at = some at }) ts t (λ r. refl) found in
    let hit = select_row-holds (hash_row tenant hash) ts t found in
    let unused : unused_row tenant t.id t ≡ true = ground arith in rw (after, unused) refl

by_link-found :
    (rt : RecoveryRuntime) (tenant plain tok hash : String) (n : ℕ) (db db' : AccountDb)
    → by_link rt tenant plain (reset_by_hash tenant hash db) db
      ≡ (RecoveryReply.signed_in tok n, db')
    → (t : PasswordResetToken) × (select_row (hash_row tenant hash) db.reset_tokens ≡ some t)
      × (by_link rt tenant plain (ok t) db ≡ (RecoveryReply.signed_in tok n, db'))
unfolding reset_by_hash by_link
by_link-found rt tenant plain tok hash n db db' h =
    elim (Option-cases (select_row (hash_row tenant hash) db.reset_tokens)) [
      | inl e ↦ absurd (ground arith)
      | inr (t, e) ↦ (t, e, ground arith)
    ]

by_link-used :
    (rt : RecoveryRuntime) (tenant plain hash : String) (db : AccountDb) (t : PasswordResetToken)
    → select_row (hash_row tenant hash) db.reset_tokens ≡ some t
    → is_some t.used_at ≡ true
    → by_link rt tenant plain (reset_by_hash tenant hash db) db ≡ (invalid_reset_token, db)
unfolding reset_by_hash by_link
by_link-used rt tenant plain hash db t found used = ground arith

by_link-claimed :
    (rt : RecoveryRuntime) (tenant plain hash : String) (at : Time) (db db' : AccountDb)
    (t : PasswordResetToken)
    → select_row (hash_row tenant hash) db.reset_tokens ≡ some t
    → is_some t.used_at ≡ false
    → db'.reset_tokens ≡ claim tenant t.id at db.reset_tokens
    → by_link rt tenant plain (reset_by_hash tenant hash db') db' ≡ (invalid_reset_token, db')
by_link-claimed rt tenant plain hash at db db' t found fresh claimed =
    let again = claimed-found tenant hash at db.reset_tokens t found fresh in
    by_link-used rt tenant plain hash db' (record t { used_at = some at })
      (ap (select_row (hash_row tenant hash)) claimed ∙ again) refl

-- A reset link that has opened a session opens no other: presented again, with any password and at any
-- time, it is answered that it is invalid, and nothing changes.
pub confirm_password_reset-once :
    (rt rt' : RecoveryRuntime) (tenant tok : String) (n : ℕ) (b b' : ResetBody) (db db' : AccountDb)
    → confirm_password_reset rt (some tenant) (some b) db ≡ (RecoveryReply.signed_in tok n, db')
    → rt'.hash b'.token ≡ rt.hash b.token
    → lacks b' ≡ false
    → confirm_password_reset rt' (some tenant) (some b') db' ≡ (invalid_reset_token, db')
unfolding confirm_password_reset
confirm_password_reset-once rt rt' tenant tok n b b' db db' h same_link full =
    let hash = rt.hash b.token in
    let (t, found, linked) =
      by_link-found rt tenant b.new_password tok hash n db db' (ground arith) in
    let (fresh, claimed) = signed-claims rt tenant b.new_password tok n t db db' linked in
    let now = by_link-claimed rt' tenant b'.new_password hash rt.now db db' t found fresh claimed in
    rw (full, same_link) now
