-- ===== src/Decay/Rows/Sweep.antt =====
-- The sweep of internal/decay/decay.go against its outcome on each row.
use yaadegar.Base.{false, ◌≡◌, ◌∙◌, ap, List, [], ◌∷◌, ◌++◌, Option, none, some, map, arith}
use mathlib.Core.List.{append-nil, append_assoc}
use yaadegar.Storage.{GiftList, Item, Reservation, DecayCandidate, ReservationState}
use yaadegar.Email.{Message}
use yaadegar.Sqlstore.Reservations.{row}
use yaadegar.Sqlstore.Reservations.Moves.{Unique, Fresh, with_rows}
use yaadegar.World.{World}
use yaadegar.Decay.{Config, Env, candidate, candidates, cons_some, step, steps, sweep}
use yaadegar.Decay.Rows.{
  notified, reminded, swept_in, swept_as, swept, Describes, candidate-Describes,
}
use yaadegar.Decay.Rows.Steps.{on_rows, under, Others, step-head, steps-tail}

row_comm : (r y : Reservation) → row r.tenant_id r.id y ≡ false → row y.tenant_id y.id r ≡ false
row_comm r y h = ground arith

module _ (cfg : Config) (env : Env) where
  swept_in_key :
      (s : ReservationState) (c : DecayCandidate) (r : Reservation)
      → ((swept_in s cfg env c r).0.tenant_id ≡ r.tenant_id)
        × ((swept_in s cfg env c r).0.id ≡ r.id)
  unfolding swept_in reminded notified
  swept_in_key ReservationState.active c r = ground arith
  swept_in_key _ c r = ground arith

  -- What the sweep leaves in the table, and what it sends.
  abbrev pub rows_after : List GiftList → List Item → List Reservation → List Reservation
  rows_after lists items = map (λ r. (swept cfg env lists items r).0)

  abbrev pub mail : List GiftList → List Item → List Reservation → List Message
  mail lists items [] = []
  mail lists items (r ∷ rs) = (swept cfg env lists items r).1 ++ mail lists items rs

  module _ (lists : List GiftList) (items : List Item) where
    cons-Others :
        (r y : Reservation) (o : Option DecayCandidate) (cs : List DecayCandidate)
        → Describes o y
        → row r.tenant_id r.id y ≡ false
        → Others cfg env r cs
        → Others cfg env r (cons_some o cs)
    unfolding cons_some
    cons-Others r y none cs d h rest = rest
    cons-Others r y (some c) cs d h rest = (rw (d.0, d.1) (row_comm r y h), rest)

    candidates-Others :
        (r : Reservation) (rs : List Reservation)
        → Fresh r rs
        → Others cfg env r (candidates lists items rs)
    unfolding candidates
    candidates-Others r [] h = tt
    candidates-Others r (y ∷ rs) h =
        cons-Others r y (candidate lists items y) _ (candidate-Describes lists items y) h.0
          (candidates-Others r rs h.1)

    Others-key :
        (r r' : Reservation) (cs : List DecayCandidate)
        → r'.tenant_id ≡ r.tenant_id
        → r'.id ≡ r.id
        → Others cfg env r cs
        → Others cfg env r' cs
    Others-key r r' [] t i h = tt
    Others-key r r' (c ∷ cs) t i h = (rw (t, i) h.0, Others-key r r' cs t i h.1)

    -- One candidate at the head of the list, whether its row is selected or not.
    steps-cons :
        (o : Option DecayCandidate) (r : Reservation) (w : World) (rs : List Reservation)
        → Describes o r
        → Fresh r rs
        → steps cfg env (on_rows w (r ∷ rs)) (cons_some o (candidates lists items rs)) ≡ (
            let (r', ms) = swept_as cfg env r o in
            under r' (
              steps cfg env
                (on_rows (record w { sent = w.sent ++ ms }) rs)
                (candidates lists items rs)))
    unfolding cons_some steps step swept_as
    steps-cons none r w rs d h =
        rw append-nil (steps-tail cfg env _ r (on_rows w rs) (candidates-Others r rs h))
    steps-cons (some c) r w rs d h =
        let key = swept_in_key c.state c r in
        let (r', ms) = swept_in c.state cfg env c r in
        ap (λ (v : World). steps cfg env v (candidates lists items rs))
          (step-head cfg env c.state c r w rs d.0 d.1 d.2 h)
        ∙ steps-tail cfg env _ r' (on_rows (record w { sent = w.sent ++ ms }) rs)
            (Others-key r r' _ key.0 key.1 (candidates-Others r rs h))

    steps-rows :
        (rs : List Reservation) (w : World)
        → Unique rs
        → steps cfg env (on_rows w rs) (candidates lists items rs) ≡ record {
          db = with_rows w.db (rows_after lists items rs);
          sent = w.sent ++ mail lists items rs;
        }
    unfolding candidates steps swept
    steps-rows [] w u = rw append-nil
    steps-rows (r ∷ rs) w u =
        steps-cons (candidate lists items r) r w rs (candidate-Describes lists items r) u.0
        ∙ (let (r', ms) = swept cfg env lists items r in
            ap (under r') (steps-rows rs (record w { sent = w.sent ++ ms }) u.1)
            ∙ ap
                (λ (sent : List Message). record {
                  db = with_rows w.db (r' ∷ rows_after lists items rs);
                  sent = sent;
                })
                (append_assoc w.sent ms (mail lists items rs)))

-- The sweep leaves every table but the reservations alone, replaces each reservation by its outcome,
-- and sends the outcomes' messages.
pub sweep_rows :
    (cfg : Config) (env : Env) (w : World)
    → Unique w.db.reservations
    → sweep cfg env w ≡ record {
      db = record w.db {
        reservations = rows_after cfg env w.db.lists w.db.items w.db.reservations;
      };
      sent = w.sent ++ mail cfg env w.db.lists w.db.items w.db.reservations;
    }
unfolding sweep
sweep_rows cfg env w u = steps-rows cfg env w.db.lists w.db.items w.db.reservations w u
