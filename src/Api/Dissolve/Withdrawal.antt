-- ===== src/Api/Dissolve/Withdrawal.antt =====
-- What `WithdrawContribution` of internal/api/cobuying.go leaves of the pledge and of its match.
use yaadegar.Base.{
  String, Bool, true, false, points_to, ◌&&◌, ◌≡◌, refl, sym, Option, none, some, arith, inl, inr,
}
use yaadegar.Base.Table.{count_where}
use yaadegar.Base.Table.Count.{count-delete_all}
use yaadegar.Storage.{Result-cases, ok, Contribution, Match, MatchState}
use yaadegar.Sqlstore.Db.{Db}
use yaadegar.Sqlstore.Contributions
use yaadegar.Sqlstore.Contributions.{row}
use yaadegar.Sqlstore.Matches
use yaadegar.Sqlstore.Matches.{match_row, is_proposed}
use yaadegar.Sqlstore.Matches.Found.{is_proposed_at, get-state, get-missing}
use yaadegar.World.{World, Flow-cases, stop, value}
use yaadegar.Api.{Runtime, Reply}
use yaadegar.Api.Dissolve.{
  contribution_by_token, by_token, leave_match, leave_found, leave_in, withdraw,
  withdraw_contribution, dissolve_match,
}
use yaadegar.Api.Dissolve.Declined.{dissolve_match-releases}

token-names :
    (rt : Runtime) (tenant id raw : String) (w w' : World) (c : Contribution)
    → contribution_by_token rt tenant id raw w ≡ (value c, w')
    → (Contributions.by_token_hash tenant (rt.hash raw) w.db ≡ ok c) × (c.id ≡ id) × (w' ≡ w)
unfolding contribution_by_token by_token
token-names rt tenant id raw w w' c h =
    elim (Result-cases (Contributions.by_token_hash tenant (rt.hash raw) w.db)) [
      | inl (e, failed) ↦ absurd (ground arith)
      | inr (c', found) ↦ (ground arith, ground arith, ground arith)
    ]

withdraw-steps :
    (rt : Runtime) (tenant id raw : String) (w w' : World)
    → withdraw rt tenant id raw w ≡ (value Reply.no_content, w')
    → (c : Contribution) × (w1 : World) × (contribution_by_token rt tenant id raw w ≡ (value c, w))
      × (leave_match tenant c w ≡ (value tt, w1))
      × (Contributions.delete tenant c.id w1.db ≡ ok (tt, w'.db))
unfolding withdraw
withdraw-steps rt tenant id raw w w' h =
    elim (Flow-cases (contribution_by_token rt tenant id raw w)) [
      | inl (f, w1, stopped) ↦ absurd (ground arith)
      | inr (c, w1, went) ↦
          let same = (token-names rt tenant id raw w w1 c went).2 in
          elim (Flow-cases (leave_match tenant c w)) [
            | inl (f, w2, stopped) ↦ absurd (ground arith)
            | inr (v, w2, left) ↦ elim (Result-cases (Contributions.delete tenant c.id w2.db)) [
              | inl (f, failed) ↦ absurd (ground arith)
              | inr ((u, db'), gone) ↦ (c, w2, ground arith, ground arith, ground arith)
            ]
          ]
    ]

leave_in-resolves :
    (tenant cid match_id : String) (m : Match) (s : MatchState) (w w' : World)
    → m.id ≡ match_id
    → is_proposed_at tenant match_id w.db ≡ is_proposed s
    → leave_in s tenant m cid w ≡ (value tt, w')
    → is_proposed_at tenant match_id w'.db ≡ false
unfolding leave_in
leave_in-resolves tenant cid match_id m MatchState.proposed w w' is_m e h =
    elim (Flow-cases (dissolve_match tenant m cid w)) [
      | inl (f, w1, stopped) ↦ absurd (ground arith)
      | inr (v, w1, went) ↦
          let done = dissolve_match-releases tenant m cid cid w w1 went in
          let same : w' ≡ w1 = ground arith in
          rw (same, sym is_m) (ground (arith, done.0.1, done.0.2))
    ]
leave_in-resolves tenant cid match_id m MatchState.both_confirmed w w' is_m e h =
    absurd (ground arith)
leave_in-resolves tenant cid match_id m MatchState.done w w' is_m e h = absurd (ground arith)
leave_in-resolves tenant cid match_id m MatchState.unset w w' is_m e h = ground arith
leave_in-resolves tenant cid match_id m MatchState.declined w w' is_m e h = ground arith
leave_in-resolves tenant cid match_id m MatchState.expired w w' is_m e h = ground arith

leave_match-resolves :
    (tenant match_id : String) (c : Contribution) (w w' : World)
    → leave_match tenant c w ≡ (value tt, w')
    → c.match_id ≡ some match_id
    → is_proposed_at tenant match_id w'.db ≡ false
unfolding leave_match leave_found
leave_match-resolves tenant match_id c w w' h e =
    elim (Result-cases (Matches.get tenant match_id w.db)) [
      | inl (f, failed) ↦ let gone = get-missing tenant match_id f w.db failed in ground arith
      | inr (m, found) ↦
          let (is_m, state) = get-state tenant match_id m w.db found in
          leave_in-resolves tenant c.id match_id m m.state w w' is_m state (ground arith)
    ]

delete-gone :
    (tenant id : String) (db db' : Db) (u : Unit {0})
    → Contributions.delete tenant id db ≡ ok (u, db')
    → (count_where (row tenant id) db'.contributions ≡ 0) × (db'.matches ≡ db.matches)
unfolding Contributions.delete
delete-gone tenant id db db' u h = ground (arith, count-delete_all (row tenant id) db.contributions)

abbrev is_no_content : Reply → Bool
is_no_content Reply.no_content = true
is_no_content _ = false

token-refuses :
    (rt : Runtime) (tenant id raw : String) (w w' : World) (r : Reply)
    → contribution_by_token rt tenant id raw w ≡ (stop r, w')
    → is_no_content r ≡ false
unfolding contribution_by_token by_token
token-refuses rt tenant id raw w w' r h = ground arith

leave-refuses :
    (tenant : String) (c : Contribution) (w w' : World) (r : Reply)
    → leave_match tenant c w ≡ (stop r, w')
    → is_no_content r ≡ false
unfolding leave_match leave_found leave_in
leave-refuses tenant c w w' r h = ground arith

withdraw-refuses :
    (rt : Runtime) (tenant id raw : String) (w w' : World) (r : Reply)
    → withdraw rt tenant id raw w ≡ (stop r, w')
    → is_no_content r ≡ false
unfolding withdraw
withdraw-refuses rt tenant id raw w w' r h =
    elim (Flow-cases (contribution_by_token rt tenant id raw w)) [
      | inl (f, w1, stopped) ↦ ground (arith, token-refuses rt tenant id raw w w1 f)
      | inr (c, w1, went) ↦ elim (Flow-cases (leave_match tenant c w1)) [
        | inl (f, w2, stopped) ↦ ground (arith, leave-refuses tenant c w1 w2 f)
        | inr (v, w2, left) ↦ ground arith
      ]
    ]

unless_there :
    (o : Option String) (id : String) (b : Bool)
    → (o ≡ some id → b ≡ false)
    → (points_to o id && b) ≡ false
unless_there none id b h = refl
unless_there (some a) id b h = ground (arith, h)

-- A pledge that is withdrawn was named by its own token. Afterwards it is no row, and the match that it
-- was in, if it was in one, is proposed no longer.
pub withdraw_contribution-resolves :
    (rt : Runtime) (tenant id raw match_id : String) (w w' : World)
    → withdraw_contribution rt (some tenant) id raw w ≡ (Reply.no_content, w')
    → (c : Contribution) × (Contributions.by_token_hash tenant (rt.hash raw) w.db ≡ ok c)
      × (c.id ≡ id)
      × (count_where (row tenant id) w'.db.contributions ≡ 0)
      × ((points_to c.match_id match_id && is_proposed_at tenant match_id w'.db) ≡ false)
unfolding withdraw_contribution
withdraw_contribution-resolves rt tenant id raw match_id w w' h =
    elim (Flow-cases (withdraw rt tenant id raw w)) [
      | inl (r, w1, stopped) ↦ absurd (ground (arith, withdraw-refuses rt tenant id raw w w1 r))
      | inr (r, w1, went) ↦
          let (c, w2, token, left, deleted) = withdraw-steps rt tenant id raw w w' (ground arith) in
          let (found, is_id, same) = token-names rt tenant id raw w w c token in
          let (gone, matches) = delete-gone tenant c.id w2.db w'.db tt deleted in
          let resolved = leave_match-resolves tenant match_id c w w2 left in
          (
            c,
            found,
            is_id,
            rw (← is_id) gone,
            rw matches (unless_there c.match_id match_id _ resolved),
          )
    ]
