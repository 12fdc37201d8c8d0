-- ===== src/Cobuy.antt =====
-- internal/cobuy/sweep.go: the sweep that dissolves a proposed match which was not confirmed within
-- its window.
pub mod Due
pub mod Dissolved
use yaadegar.Base.{List, [], ◌∷◌, if◌then◌else◌, Bool}
use yaadegar.Base.Int.{pos, ◌-ℤ◌, leb_ℤ}
use yaadegar.Storage.{Result, ok, err, Time, Duration, MatchExpiryCandidate}
use yaadegar.Sqlstore.Db.{Db}
use yaadegar.Sqlstore.Matches.{expire_if_proposed, expired_match_candidates}

-- A failed expiry is logged, and leaves the database as it was.
pub after : Db → Result (Bool × Db) → Db
after db (ok (moved, db')) = db'
after db (err e) = db

unfoldable pub expire_all : Db → List MatchExpiryCandidate → Db
unfolding after
expire_all db [] = db
expire_all db (c ∷ cs) =
    expire_all (after db (expire_if_proposed c.tenant_id c.item_id c.match_id db)) cs

unfoldable pub sweep : Duration → Time → Db → Db
unfolding expire_all
sweep window now db =
    if leb_ℤ window (pos 0) then db else expire_all db (expired_match_candidates (now -ℤ window) db)
