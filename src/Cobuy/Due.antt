-- ===== src/Cobuy/Due.antt =====
-- Which matches the sweep of internal/cobuy/sweep.go dissolves.
use yaadegar.Base.{
  String, Bool, true, ◌&&◌, ◌==◌, ◌≡◌, refl, ◌∙◌, ap, List, [], ◌∷◌, map, arith, Bool-cases, inl,
  inr,
}
use yaadegar.Base.Int.{pos, ◌-ℤ◌, leb_ℤ, ltb_ℤ}
use yaadegar.Base.Table.{select_where, count_where}
use yaadegar.Storage.{Result, ok, err, Time, Duration, MatchExpiryCandidate}
use yaadegar.Sqlstore.Db.{Db, MatchRow}
use yaadegar.Sqlstore.Matches.{
  expire_if_proposed, expired_match_candidates, to_candidate, match_row, is_proposed,
}
use yaadegar.Sqlstore.Matches.Resolution.{after_expires, expire-view, view}
use yaadegar.Cobuy.{after, expire_all, sweep}

pub after-after_expires : (db : Db) (res : Result (Bool × Db)) → after db res ≡ after_expires db res
unfolding after
after-after_expires db (ok (moved, db')) = refl
after-after_expires db (err e) = refl

-- The match is a proposal that was made before the cutoff.
abbrev pub due : String → String → Time → MatchRow → Bool
due tenant match_id cutoff m =
    match_row tenant match_id m && is_proposed m.state && ltb_ℤ m.created_at cutoff

abbrev pub names : String → String → MatchExpiryCandidate → Bool
names tenant match_id c = tenant == c.tenant_id && match_id == c.match_id

pub own_key :
    (tenant match_id : String) (c : MatchExpiryCandidate)
    → names tenant match_id c ≡ true
    → (tenant ≡ c.tenant_id) × (match_id ≡ c.match_id)
own_key tenant match_id c h = ground arith

expire_all-view :
    (tenant match_id : String) (cs : List MatchExpiryCandidate) (db : Db)
    → count_where (names tenant match_id) cs ≡ 0
    → view tenant match_id (expire_all db cs) ≡ view tenant match_id db
unfolding expire_all count_where
expire_all-view tenant match_id [] db none_named = refl
expire_all-view tenant match_id (c ∷ cs) db none_named =
    let res = expire_if_proposed c.tenant_id c.item_id c.match_id db in
    let rest = expire_all-view tenant match_id cs (after db res) (ground arith) in
    let same = after-after_expires db res in
    let one = expire-view tenant match_id c.tenant_id c.item_id c.match_id db (ground arith) in
    rest ∙ ap (view tenant match_id) same ∙ one

candidates-names :
    (tenant match_id : String) (cutoff : Time) (ms : List MatchRow)
    → count_where (due tenant match_id cutoff) ms ≡ 0
    → count_where (names tenant match_id) (
        map to_candidate (
          select_where
            (λ m. ltb_ℤ m.created_at cutoff)
            (select_where (λ m. is_proposed m.state) ms)))
      ≡ 0
unfolding count_where select_where
candidates-names tenant match_id cutoff [] h = refl
candidates-names tenant match_id cutoff (m ∷ ms) h =
    let rest = candidates-names tenant match_id cutoff ms in ground arith

-- The sweep leaves alone what is not due: a match that is not a proposal made before the window began
-- keeps its row, and the pledges on it keep theirs.
pub sweep-view :
    (tenant match_id : String) (window : Duration) (now : Time) (db : Db)
    → count_where (due tenant match_id (now -ℤ window)) db.matches ≡ 0
    → view tenant match_id (sweep window now db) ≡ view tenant match_id db
unfolding sweep expired_match_candidates
sweep-view tenant match_id window now db h = elim (Bool-cases (leb_ℤ window (pos 0))) [
  | inl e ↦ rw e refl
  | inr e ↦
      let names0 = candidates-names tenant match_id (now -ℤ window) db.matches h in
      rw e (expire_all-view tenant match_id _ db names0)
]
