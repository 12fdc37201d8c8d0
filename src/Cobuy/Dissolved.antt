-- ===== src/Cobuy/Dissolved.antt =====
-- The matches that are due, after the sweep of internal/cobuy/sweep.go.
use yaadegar.Base.{
  ◌<◌, String, Bool, true, false, ◌&&◌, ◌==◌, ◌≡◌, sym, ◌∙◌, ap, List, [], ◌∷◌, some, map, arith,
  Bool-cases, inl, inr, is_some,
}
use yaadegar.Base.Int.{pos, ◌-ℤ◌, leb_ℤ, ltb_ℤ}
use yaadegar.Base.Table.{select_row, select_where, count_where}
use yaadegar.Storage.{Time, Duration, MatchExpiryCandidate}
use yaadegar.Sqlstore.Db.{Db, MatchRow, item_row}
use yaadegar.Sqlstore.Matches.{
  expire_if_proposed, expired_match_candidates, to_candidate, match_row, is_proposed,
}
use yaadegar.Sqlstore.Matches.Resolution.{
  expire-view, expire-Resolved, expire-own, expire-found, expire-items, Resolved,
}
use yaadegar.Cobuy.{after, expire_all, sweep}
use yaadegar.Cobuy.Due.{names, own_key, after-after_expires}

module _ (tenant match_id item : String) where
  -- The match is a row, and its item is there to be locked.
  abbrev Present : Db → Type 0
  Present db =
      ((m : MatchRow) × (select_row (match_row tenant match_id) db.matches ≡ some m))
      × (is_some (select_row (item_row tenant item) db.items) ≡ true)

  abbrev mine : MatchExpiryCandidate → Bool
  mine c = names tenant match_id c && item == c.item_id

  mine_key :
      (c : MatchExpiryCandidate)
      → mine c ≡ true
      → (tenant ≡ c.tenant_id) × (match_id ≡ c.match_id) × (item ≡ c.item_id)
  mine_key c h = ground arith

  step-Resolved :
      (c : MatchExpiryCandidate) (db : Db)
      → Resolved tenant match_id db
      → Resolved tenant match_id (after db (expire_if_proposed c.tenant_id c.item_id c.match_id db))
  step-Resolved c db h = elim (Bool-cases (names tenant match_id c)) [
    | inl own ↦
        let (e1, e2) = own_key tenant match_id c own in
        let h' : Resolved c.tenant_id c.match_id db = rw (sym e1, sym e2) h in
        rw
          (
            after-after_expires db (expire_if_proposed c.tenant_id c.item_id c.match_id db),
            expire-Resolved c.tenant_id c.item_id c.match_id db h',
          )
          h
    | inr other ↦
        let same =
          ap (λ v. v.0) (expire-view tenant match_id c.tenant_id c.item_id c.match_id db other) in
        rw (after-after_expires db (expire_if_proposed c.tenant_id c.item_id c.match_id db))
          (h.0, same ∙ h.1, h.2)
  ]

  expire_all-Resolved :
      (cs : List MatchExpiryCandidate) (db : Db)
      → Resolved tenant match_id db
      → Resolved tenant match_id (expire_all db cs)
  unfolding expire_all
  expire_all-Resolved [] db h = h
  expire_all-Resolved (c ∷ cs) db h = expire_all-Resolved cs _ (step-Resolved c db h)

  step-Present :
      (c : MatchExpiryCandidate) (db : Db)
      → Present db
      → Present (after db (expire_if_proposed c.tenant_id c.item_id c.match_id db))
  step-Present c db ((m, found), there) =
      let res = expire_if_proposed c.tenant_id c.item_id c.match_id db in
      let items =
        ap (λ v. v.items) (after-after_expires db res)
        ∙ expire-items c.tenant_id c.item_id c.match_id db in
      let kept : is_some (select_row (item_row tenant item) (after db res).items) ≡ true =
        rw items there in
      elim (Bool-cases (names tenant match_id c)) [
        | inl own ↦
            let (e1, e2) = own_key tenant match_id c own in
            let found' : select_row (match_row c.tenant_id c.match_id) db.matches ≡ some m =
              rw (sym e1, sym e2) found in
            let (m', after') = expire-found c.tenant_id c.item_id c.match_id db m found' in
            (
              (
                m',
                ap (λ v. select_row (match_row tenant match_id) v.matches)
                      (after-after_expires db res)
                    ∙ rw (e1, e2) after',
              ),
              kept,
            )
        | inr other ↦
            let same =
              ap (λ v. v.0)
                (expire-view tenant match_id c.tenant_id c.item_id c.match_id db other) in
            (
              (
                m,
                ap (λ v. select_row (match_row tenant match_id) v.matches)
                      (after-after_expires db res)
                    ∙ same
                    ∙ found,
              ),
              kept,
            )
      ]

  step-mine :
      (c : MatchExpiryCandidate) (db : Db)
      → Present db
      → mine c ≡ true
      → Resolved tenant match_id (after db (expire_if_proposed c.tenant_id c.item_id c.match_id db))
  step-mine c db ((m, found), there) own =
      let (e1, e2, e3) = mine_key c own in
      let res = expire_if_proposed c.tenant_id c.item_id c.match_id db in
      let done = expire-own tenant item match_id db m found there in
      rw (after-after_expires db res, sym e1, sym e2, sym e3) done

  expire_all-mine :
      (cs : List MatchExpiryCandidate) (db : Db)
      → Present db
      → 0 < count_where mine cs
      → Resolved tenant match_id (expire_all db cs)
  unfolding expire_all count_where
  expire_all-mine [] db here some_mine = absurd (omega arith)
  expire_all-mine (c ∷ cs) db here some_mine = elim (Bool-cases (mine c)) [
    | inl e ↦ expire_all-Resolved cs _ (step-mine c db here e)
    | inr e ↦ expire_all-mine cs _ (step-Present c db here) (ground arith)
  ]

candidates-mine :
    (tenant match_id : String) (cutoff : Time) (ms : List MatchRow) (m : MatchRow)
    → select_row (match_row tenant match_id) ms ≡ some m
    → is_proposed m.state ≡ true
    → ltb_ℤ m.created_at cutoff ≡ true
    → 0
      < count_where (mine tenant match_id m.item_id) (
          map to_candidate (
            select_where
              (λ x. ltb_ℤ x.created_at cutoff)
              (select_where (λ x. is_proposed x.state) ms)))
unfolding select_row select_where count_where
candidates-mine tenant match_id cutoff [] m found open_still old = absurd (ground arith)
candidates-mine tenant match_id cutoff (x ∷ ms) m found open_still old =
    ground (arith, candidates-mine tenant match_id cutoff ms m)

-- A sweep dissolves every match that is due: a proposal that was made before the window began, and
-- whose item is there to be locked, is resolved after the sweep, whatever else was due.
pub sweep-Resolved :
    (tenant match_id : String) (window : Duration) (now : Time) (db : Db) (m : MatchRow)
    → leb_ℤ window (pos 0) ≡ false
    → select_row (match_row tenant match_id) db.matches ≡ some m
    → is_proposed m.state ≡ true
    → ltb_ℤ m.created_at (now -ℤ window) ≡ true
    → is_some (select_row (item_row tenant m.item_id) db.items) ≡ true
    → Resolved tenant match_id (sweep window now db)
unfolding sweep expired_match_candidates
sweep-Resolved tenant match_id window now db m on found open_still old there = rw on (
    expire_all-mine tenant match_id m.item_id _ db ((m, found), there)
      (candidates-mine tenant match_id (now -ℤ window) db.matches m found open_still old))
