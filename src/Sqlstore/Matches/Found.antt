-- ===== src/Sqlstore/Matches/Found.antt =====
-- What `Get` of internal/storage/sqlstore/matches.go says of the state of a match.
use yaadegar.Base.{String, Bool, true, false, ◌≡◌, none, some, arith, Option-cases, inl, inr}
use yaadegar.Base.Table.{select_row}
use yaadegar.Base.Table.Count.{select_row-holds}
use yaadegar.Storage.{ok, err, Error, Match}
use yaadegar.Sqlstore.Db.{Db}
use yaadegar.Sqlstore.Matches
use yaadegar.Sqlstore.Matches.{
  match_row, is_proposed, confirm_contribution, confirm_locked, confirm_proposed, complete,
  Confirmed,
}

abbrev pub is_proposed_at : String → String → Db → Bool
is_proposed_at tenant match_id db = elim (select_row (match_row tenant match_id) db.matches) [
  | none ↦ false
  | some r ↦ is_proposed r.state
]

pub get-state :
    (tenant match_id : String) (m : Match) (db : Db)
    → Matches.get tenant match_id db ≡ ok m
    → (m.id ≡ match_id) × (is_proposed_at tenant match_id db ≡ is_proposed m.state)
unfolding Matches.get Matches.scan_match
get-state tenant match_id m db h =
    elim (Option-cases (select_row (match_row tenant match_id) db.matches)) [
      | inl e ↦ absurd (ground arith)
      | inr (r, e) ↦
          let hit = select_row-holds (match_row tenant match_id) db.matches r e in
          (ground arith, ground arith)
    ]

pub get-missing :
    (tenant match_id : String) (f : Error) (db : Db)
    → Matches.get tenant match_id db ≡ err f
    → is_proposed_at tenant match_id db ≡ false
unfolding Matches.get
get-missing tenant match_id f db h = ground arith

-- A confirm that does not complete the match leaves it proposed, if it was.
pub confirm_contribution-unfinished :
    (tenant item match_id cid : String) (m' : Match) (cf : Confirmed) (db db' : Db)
    → confirm_contribution tenant item match_id cid db ≡ ok ((m', cf), db')
    → is_proposed_at tenant match_id db ≡ true
    → cf.completed_now ≡ false
    → is_proposed m'.state ≡ true
unfolding confirm_contribution confirm_locked confirm_proposed complete Matches.get
    Matches.scan_match
confirm_contribution-unfinished tenant item match_id cid m' cf db db' h e now = ground arith
