-- ===== src/Api/Decide/Shown.antt =====
-- When `ConfirmMatch` of internal/api/cobuying.go shows the contacts of the parties.
use yaadegar.Base.{
  String, Bool, true, false, points_to, ◌≡◌, refl, sym, ap, ◌∙◌, List, [], some, map, arith,
  Bool-cases, inl, inr,
}
use yaadegar.Base.Table.{count_where}
use yaadegar.Storage.{Result-cases, ok, Contribution, Match, MatchState}
use yaadegar.Sqlstore.Db.{Db}
use yaadegar.Sqlstore.Matches
use yaadegar.Sqlstore.Matches.{
  match_row, is_proposed, on_match, is_confirmed, all_confirmed, fully_confirmed, Confirmed,
}
use yaadegar.Sqlstore.Matches.Resolution.{confirm_contribution-completes}
use yaadegar.World.{World, Flow-cases, stop, value}
use yaadegar.Api.{Runtime}
use yaadegar.Api.Cobuying.{actor, resolve_match_actor, MatchView, MatchReply, to_gen_match}
use yaadegar.Sqlstore.Matches.Found.{is_proposed_at, get-state, confirm_contribution-unfinished}
use yaadegar.Api.Cobuying.Contacts.{resolve_match_actor-party, to_gen_match-contacts}
use yaadegar.Api.Reveal.{email_reveal}
use yaadegar.Api.Reveal.Mail.{email_reveal-db, send_cobuy_thank_you-db}
use yaadegar.Api.Decide.{
  clear_tokens, revealed, after_confirm, confirm, decline, decide_in, decide, confirm_match, party,
  as_party,
}
use yaadegar.Api.Decide.Parties.{
  addresses, unconfirmed, SameParties, tokens-SameParties, none-unconfirmed, fully-all,
}

abbrev Agreed : String → String → List String → Db → Type 0
Agreed tenant match_id contacts db =
    (contacts ≡ addresses tenant match_id db)
    × (count_where (unconfirmed tenant match_id) db.contributions ≡ 0)

agree :
    (tenant match_id : String) (contacts to : List String) (db db' : Db)
    → contacts ≡ to
    → Agreed tenant match_id to db
    → SameParties tenant match_id db db'
    → Agreed tenant match_id contacts db'
agree tenant match_id contacts to db db' e (is_to, zero) (kept, keeps) =
    (e ∙ is_to ∙ sym kept, keeps zero)

completed :
    (tenant item match_id cid : String) (m' : Match) (cf : Confirmed) (db db' : Db)
    → Matches.confirm_contribution tenant item match_id cid db ≡ ok ((m', cf), db')
    → cf.completed_now ≡ true
    → Agreed tenant match_id (map (λ c. c.contact_email) cf.contribs) db'
completed tenant item match_id cid m' cf db db' h now =
    let (all, full, over) =
      confirm_contribution-completes tenant item match_id cid db db' cf m' h now in
    (
      rw all refl,
      none-unconfirmed tenant match_id db'.contributions
          (rw (sym all) (fully-all cf.contribs full)),
    )

revealed-steps :
    (rt : Runtime) (tenant : String) (m : Match) (cf : Confirmed) (w w' : World) (v : MatchView)
    → revealed rt tenant m cf w ≡ (value (MatchReply.shown v), w')
    → (w1 : World) × (clear_tokens tenant cf.contribs w ≡ (value tt, w1))
      × (w'.db ≡ w1.db)
      × (v ≡ to_gen_match m (map (λ c. c.contact_email) cf.contribs))
unfolding revealed
revealed-steps rt tenant m cf w w' v h = elim (Flow-cases (clear_tokens tenant cf.contribs w)) [
  | inl (f, w1, stopped) ↦ absurd (ground arith)
  | inr (u, w1, went) ↦
      let mailed = email_reveal rt cf.contribs cf.contribs w1 in
      let same =
        send_cobuy_thank_you-db rt tenant m.item_id cf.contribs mailed
        ∙ email_reveal-db rt cf.contribs cf.contribs w1 in
      (w1, ground arith, ground (arith, same), ground arith)
]

confirm-shows :
    (rt : Runtime) (tenant match_id : String) (c : Contribution) (m : Match) (w w' : World)
    (v : MatchView) (contacts : List String)
    → m.id ≡ match_id
    → is_proposed_at tenant match_id w.db ≡ true
    → confirm rt tenant c m w ≡ (value (MatchReply.shown v), w')
    → v.contacts ≡ some contacts
    → Agreed tenant match_id contacts w'.db
unfolding confirm after_confirm
confirm-shows rt tenant match_id c m w w' v contacts is_m proposed h e =
    elim (Result-cases (Matches.confirm_contribution tenant m.item_id m.id c.id w.db)) [
      | inl (f, failed) ↦ absurd (ground arith)
      | inr (((m', cf), db'), made) ↦ elim (Bool-cases cf.completed_now) [
        | inl now ↦
            let (w1, cleared, same, is_v) =
              revealed-steps rt tenant m' cf (record w { db = db' }) w' v (ground arith) in
            let done = completed tenant m.item_id m.id c.id m' cf w.db db' made now in
            let moved =
              tokens-SameParties tenant m.id cf.contribs (record w { db = db' }) w1 tt cleared in
            let shown =
              to_gen_match-contacts m' _ contacts
                (ap (λ (x : MatchView). x.contacts) (sym is_v) ∙ e) in
            rw (same, sym is_m) (agree tenant m.id contacts _ db' w1.db shown.1 done moved)
        | inr later ↦
            let still =
              confirm_contribution-unfinished tenant m.item_id m.id c.id m' cf w.db db' made
                (rw is_m proposed) later in
            let is_v : v ≡ to_gen_match m' [] = ground arith in
            let shown =
              to_gen_match-contacts m' [] contacts
                (ap (λ (x : MatchView). x.contacts) (sym is_v) ∙ e) in
            absurd (ground (arith, still, shown.0))
      ]
    ]

-- An action that stops shows no match.
abbrev is_shown : MatchReply → Bool
is_shown (MatchReply.shown v) = true
is_shown _ = false

revealed-refuses :
    (rt : Runtime) (tenant : String) (m : Match) (cf : Confirmed) (w w' : World) (r : MatchReply)
    → revealed rt tenant m cf w ≡ (stop r, w')
    → is_shown r ≡ false
unfolding revealed
revealed-refuses rt tenant m cf w w' r h = ground arith

confirm-refuses :
    (rt : Runtime) (tenant : String) (c : Contribution) (m : Match) (w w' : World) (r : MatchReply)
    → confirm rt tenant c m w ≡ (stop r, w')
    → is_shown r ≡ false
unfolding confirm after_confirm
confirm-refuses rt tenant c m w w' r h =
    elim (Result-cases (Matches.confirm_contribution tenant m.item_id m.id c.id w.db)) [
      | inl (f, failed) ↦ ground arith
      | inr (((m', cf), db'), made) ↦
          ground (arith, revealed-refuses rt tenant m' cf (record w { db = db' }) w' r)
    ]

decline-hides :
    (tenant : String) (c : Contribution) (m : Match) (w w' : World) (v : MatchView)
    → decline tenant c m w ≡ (value (MatchReply.shown v), w')
    → v ≡ to_gen_match (record m { state = MatchState.declined }) []
unfolding decline
decline-hides tenant c m w w' v h = ground arith

decline-refuses :
    (tenant : String) (c : Contribution) (m : Match) (w w' : World) (r : MatchReply)
    → decline tenant c m w ≡ (stop r, w')
    → is_shown r ≡ false
unfolding decline
decline-refuses tenant c m w w' r h = ground arith

decide_in-refuses :
    (s : MatchState) (rt : Runtime) (tenant : String) (declines : Bool) (c : Contribution)
    (m : Match) (w w' : World) (r : MatchReply)
    → decide_in s rt tenant declines c m w ≡ (stop r, w')
    → is_shown r ≡ false
unfolding decide_in
decide_in-refuses MatchState.proposed rt tenant true c m w w' r h =
    decline-refuses tenant c m w w' r h
decide_in-refuses MatchState.proposed rt tenant false c m w w' r h =
    confirm-refuses rt tenant c m w w' r h
decide_in-refuses MatchState.unset rt tenant declines c m w w' r h = ground arith
decide_in-refuses MatchState.both_confirmed rt tenant declines c m w w' r h = ground arith
decide_in-refuses MatchState.done rt tenant declines c m w w' r h = ground arith
decide_in-refuses MatchState.declined rt tenant declines c m w w' r h = ground arith
decide_in-refuses MatchState.expired rt tenant declines c m w w' r h = ground arith

decide_in-shows :
    (s : MatchState) (rt : Runtime) (tenant match_id : String) (declines : Bool) (c : Contribution)
    (m : Match) (w w' : World) (v : MatchView) (contacts : List String)
    → m.id ≡ match_id
    → is_proposed_at tenant match_id w.db ≡ is_proposed s
    → decide_in s rt tenant declines c m w ≡ (value (MatchReply.shown v), w')
    → v.contacts ≡ some contacts
    → (declines ≡ false) × Agreed tenant match_id contacts w'.db
unfolding decide_in
decide_in-shows MatchState.proposed rt tenant match_id true c m w w' v contacts is_m p h e =
    let is_v = decline-hides tenant c m w w' v h in
    let shown =
      to_gen_match-contacts (record m { state = MatchState.declined }) [] contacts
        (ap (λ (x : MatchView). x.contacts) (sym is_v) ∙ e) in
    absurd (ground (arith, shown.0))
decide_in-shows MatchState.proposed rt tenant match_id false c m w w' v contacts is_m p h e =
    (refl, confirm-shows rt tenant match_id c m w w' v contacts is_m p h e)
decide_in-shows MatchState.unset rt tenant match_id declines c m w w' v contacts is_m p h e =
    absurd (ground arith)
decide_in-shows MatchState.both_confirmed rt tenant match_id declines c m w w' v contacts is_m p h
      e =
    absurd (ground arith)
decide_in-shows MatchState.done rt tenant match_id declines c m w w' v contacts is_m p h e =
    absurd (ground arith)
decide_in-shows MatchState.declined rt tenant match_id declines c m w w' v contacts is_m p h e =
    absurd (ground arith)
decide_in-shows MatchState.expired rt tenant match_id declines c m w w' v contacts is_m p h e =
    absurd (ground arith)

party-actor :
    (rt : Runtime) (tenant raw match_id : String) (w w' : World) (c : Contribution)
    → party rt tenant raw match_id w ≡ (value c, w')
    → (resolve_match_actor rt tenant raw match_id w.db ≡ actor c) × (w' ≡ w)
unfolding party as_party
party-actor rt tenant raw match_id w w' c h = ground arith

party-refuses :
    (rt : Runtime) (tenant raw match_id : String) (w w' : World) (r : MatchReply)
    → party rt tenant raw match_id w ≡ (stop r, w')
    → is_shown r ≡ false
unfolding party as_party
party-refuses rt tenant raw match_id w w' r h = ground arith

decide-refuses :
    (rt : Runtime) (tenant raw match_id : String) (declines : Bool) (w w' : World) (r : MatchReply)
    → decide rt tenant raw match_id declines w ≡ (stop r, w')
    → is_shown r ≡ false
unfolding decide
decide-refuses rt tenant raw match_id declines w w' r h =
    elim (Flow-cases (party rt tenant raw match_id w)) [
      | inl (f, w1, stopped) ↦ ground (arith, party-refuses rt tenant raw match_id w w1 f)
      | inr (c, w1, went) ↦ elim (Result-cases (Matches.get tenant match_id w1.db)) [
        | inl (f, failed) ↦ ground arith
        | inr (m, found) ↦ decide_in-refuses m.state rt tenant declines c m w1 w' r (ground arith)
      ]
    ]

decide-shows :
    (rt : Runtime) (tenant raw match_id : String) (declines : Bool) (w w' : World) (v : MatchView)
    (contacts : List String)
    → decide rt tenant raw match_id declines w ≡ (value (MatchReply.shown v), w')
    → v.contacts ≡ some contacts
    → (declines ≡ false)
      × ((c : Contribution) × (resolve_match_actor rt tenant raw match_id w.db ≡ actor c)
          × (points_to c.match_id match_id ≡ true))
      × Agreed tenant match_id contacts w'.db
unfolding decide
decide-shows rt tenant raw match_id declines w w' v contacts h e =
    elim (Flow-cases (party rt tenant raw match_id w)) [
      | inl (f, w1, stopped) ↦ absurd (ground arith)
      | inr (c, w1, went) ↦
          let (is_c, same) = party-actor rt tenant raw match_id w w1 c went in
          elim (Result-cases (Matches.get tenant match_id w.db)) [
            | inl (f, failed) ↦ absurd (ground arith)
            | inr (m, found) ↦
                let (is_m, state) = get-state tenant match_id m w.db found in
                let agreed =
                  decide_in-shows m.state rt tenant match_id declines c m w w' v contacts is_m state
                    (ground arith) e in
                (
                  agreed.0,
                  (c, is_c, resolve_match_actor-party rt tenant raw match_id w.db c is_c),
                  agreed.1,
                )
          ]
    ]

-- A decision that is answered with contacts was a confirm, made with a token of one of the parties.
-- The contacts are the addresses of the pledges on the match, and each of these is confirmed.
pub confirm_match-contacts :
    (rt : Runtime) (tenant raw match_id : String) (declines : Bool) (w w' : World) (v : MatchView)
    (contacts : List String)
    → confirm_match rt (some tenant) raw match_id declines w ≡ (MatchReply.shown v, w')
    → v.contacts ≡ some contacts
    → (declines ≡ false)
      × ((c : Contribution) × (resolve_match_actor rt tenant raw match_id w.db ≡ actor c)
          × (points_to c.match_id match_id ≡ true))
      × (contacts ≡ addresses tenant match_id w'.db)
      × (count_where (unconfirmed tenant match_id) w'.db.contributions ≡ 0)
unfolding confirm_match
confirm_match-contacts rt tenant raw match_id declines w w' v contacts h e =
    elim (Flow-cases (decide rt tenant raw match_id declines w)) [
      | inl (r, w1, stopped) ↦
          absurd (ground (arith, decide-refuses rt tenant raw match_id declines w w1 r))
      | inr (r, w1, went) ↦
          let all = decide-shows rt tenant raw match_id declines w w' v contacts (ground arith) e in
          (all.0, all.1, all.2.0, all.2.1)
    ]
