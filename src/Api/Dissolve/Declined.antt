-- ===== src/Api/Dissolve/Declined.antt =====
-- What `dissolveMatch` of internal/api/cobuying.go leaves of a match and of its pledges.
use yaadegar.Base.{
  String, Bool, true, false, not, ◌==◌, ◌&&◌, ◌||◌, ◌≡◌, refl, sym, ◌∙◌, List, [], ◌∷◌, some, arith,
  Bool-cases, Option-cases, inl, inr,
}
use yaadegar.Base.Table.{select_row}
use yaadegar.Base.Table.Count.{count-select_none}
use yaadegar.Storage.{Result-cases, ok, Match, MatchState}
use yaadegar.Sqlstore.Db.{Db, MatchRow}
use yaadegar.Sqlstore.Matches
use yaadegar.Sqlstore.Matches.{match_row}
use yaadegar.Sqlstore.Matches.Resolution.{set_state-found}
use yaadegar.World.{World, Flow-cases, value}
use yaadegar.Api.Dissolve.{reopen_id, reopen_all, dissolve_match}
use yaadegar.Api.Dissolve.Released.{AllReleased, rows, Releases, reopen_id-Releases}

-- The pledges of a list, but for the excepted one.
abbrev pub listed : String → String → List String → Bool
listed except id [] = false
listed except id (x ∷ xs) = x == id && not (x == except) || listed except id xs

record ReleasesAll (tenant except : String) (ids : List String) (db db' : Db) : Type 0 where
  done : (id : String) → listed except id ids ≡ true → AllReleased tenant id db'
  keeps : (other : String) → AllReleased tenant other db → AllReleased tenant other db'
  others :
      (other : String)
      → listed except other ids ≡ false
      → rows tenant other db' ≡ rows tenant other db
  matches : db'.matches ≡ db.matches

Releases-head :
    (tenant except x : String) (xs : List String) (db db1 db' : Db)
    → Releases tenant x db db1
    → ReleasesAll tenant except xs db1 db'
    → (x == except) ≡ false
    → ReleasesAll tenant except (x ∷ xs) db db'
Releases-head tenant except x xs db db1 db' one all ne = record {
  done = λ id hit. elim (Bool-cases (listed except id xs)) [
    | inl e ↦ all.done id e
    | inr e ↦ let is_x : x ≡ id = ground arith in all.keeps id (rw (sym is_x) one.done)
  ];
  keeps = λ other z. all.keeps other (one.keeps other z);
  others = λ other miss. all.others other (ground arith) ∙ one.others other (ground arith);
  matches = all.matches ∙ one.matches;
}

Releases-skip :
    (tenant except x : String) (xs : List String) (db db' : Db)
    → ReleasesAll tenant except xs db db'
    → (x == except) ≡ true
    → ReleasesAll tenant except (x ∷ xs) db db'
Releases-skip tenant except x xs db db' all e = record {
  done = λ id hit. all.done id (ground arith);
  keeps = all.keeps;
  others = λ other miss. all.others other (ground arith);
  matches = all.matches;
}

reopen_all-Releases :
    (tenant except : String) (ids : List String) (w w' : World) (u : Unit {0})
    → reopen_all tenant except ids w ≡ (value u, w')
    → ReleasesAll tenant except ids w.db w'.db
unfolding reopen_all
reopen_all-Releases tenant except [] w w' u h =
    let same : w' ≡ w = ground arith in
    rw same (record {
      done = λ id e. absurd (ground arith);
      keeps = λ other z. z;
      others = λ other e. refl;
      matches = refl;
    })
reopen_all-Releases tenant except (x ∷ xs) w w' u h = elim (Bool-cases (x == except)) [
  | inl e ↦
      Releases-skip tenant except x xs w.db w'.db
        (reopen_all-Releases tenant except xs w w' u (ground arith)) e
  | inr e ↦ elim (Flow-cases (reopen_id tenant x w)) [
    | inl (f, w1, stopped) ↦ absurd (ground arith)
    | inr (v, w1, went) ↦
        Releases-head tenant except x xs w.db w1.db w'.db (reopen_id-Releases tenant x w w1 v went)
          (reopen_all-Releases tenant except xs w1 w' u (ground arith)) e
  ]
]

-- What becomes of a pledge: it is released, or it is as it was.
abbrev pub Fate : Bool → String → String → Db → Db → Type 0
Fate true tenant id db db' = AllReleased tenant id db'
Fate false tenant id db db' = rows tenant id db' ≡ rows tenant id db

Fate-listed :
    (tenant except id : String) (ids : List String) (db db1 db' : Db)
    → db'.contributions ≡ db1.contributions
    → ReleasesAll tenant except ids db db1
    → Fate (listed except id ids) tenant id db db'
Fate-listed tenant except id ids db db1 db' same all = elim (Bool-cases (listed except id ids)) [
  | inl e ↦ rw (e, same) (all.done id e)
  | inr e ↦ rw (e, same) (all.others id e)
]

updated-found :
    (tenant : String) (m m' : Match) (db db' : Db)
    → Matches.update tenant m db ≡ ok (m', db')
    → ((r : MatchRow) × (select_row (match_row tenant m.id) db'.matches ≡ some r)
        × (r.state ≡ m.state))
      × (db'.contributions ≡ db.contributions)
unfolding Matches.update
updated-found tenant m m' db db' h =
    elim (Option-cases (select_row (match_row tenant m.id) db.matches)) [
      | inl e ↦
          let zero =
            count-select_none (match_row tenant m.id) (match_row tenant m.id) db.matches
              (λ r hit. hit) e in
          absurd (ground arith)
      | inr (r, e) ↦
          let found = set_state-found tenant m.id m.state db.matches r e in
          ((record r { state = m.state }, ground arith, refl), ground arith)
    ]

dissolve-steps :
    (tenant : String) (m : Match) (except : String) (w w' : World)
    → dissolve_match tenant m except w ≡ (value tt, w')
    → (w1 : World) × (m' : Match) × (reopen_all tenant except m.contribution_ids w ≡ (value tt, w1))
      × (Matches.update tenant (record m { state = MatchState.declined }) w1.db ≡ ok (m', w'.db))
unfolding dissolve_match
dissolve-steps tenant m except w w' h =
    elim (Flow-cases (reopen_all tenant except m.contribution_ids w)) [
      | inl (f, w1, stopped) ↦ absurd (ground arith)
      | inr (v, w1, went) ↦
          elim (Result-cases
            (Matches.update tenant (record m { state = MatchState.declined }) w1.db)) [
              | inl (f, failed) ↦ absurd (ground arith)
              | inr ((m', db'), wrote) ↦ (w1, m', went, ground arith)
            ]
    ]

-- A match that is dissolved is declined. A pledge of its list other than the excepted one is, where it
-- is a row, pending, in no match and with no scoped token; any other pledge is as it was.
pub dissolve_match-releases :
    (tenant : String) (m : Match) (except id : String) (w w' : World)
    → dissolve_match tenant m except w ≡ (value tt, w')
    → ((r : MatchRow) × (select_row (match_row tenant m.id) w'.db.matches ≡ some r)
        × (r.state ≡ MatchState.declined))
      × Fate (listed except id m.contribution_ids) tenant id w.db w'.db
dissolve_match-releases tenant m except id w w' h =
    let (w1, m', went, wrote) = dissolve-steps tenant m except w w' h in
    let all = reopen_all-Releases tenant except m.contribution_ids w w1 tt went in
    let (declined, same) =
      updated-found tenant (record m { state = MatchState.declined }) m' w1.db w'.db wrote in
    (declined, Fate-listed tenant except id m.contribution_ids w.db w1.db w'.db same all)
