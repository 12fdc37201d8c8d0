-- ===== src/Decay/Rows/Steps.antt =====
-- One step of the sweep on a table whose first row is the candidate's, or another's.
use yaadegar.Base.{
  String, Bool, false, ◌≡◌, refl, sym, ◌∙◌, ap, List, [], ◌∷◌, ◌++◌, Option, none, some, arith, inl,
  inr, Bool-cases,
}
use mathlib.Core.List.{append-nil}
use yaadegar.Base.Table.{All}
use yaadegar.Storage.{Result, ok, err, Reservation, DecayCandidate, ReservationState}
use yaadegar.Email.{Message}
use yaadegar.Sqlstore.Db.{Db}
use yaadegar.Sqlstore.Reservations.{
  row, transition_state, set_expired, set_notified, mark_expired, mark_reserver_notified,
  expire_pending,
}
use yaadegar.Sqlstore.Reservations.Moves.{Fresh, left, with_rows, transition-head, transition-tail}
use yaadegar.World.{World}
use yaadegar.Decay.{
  Config, Env, confirm_waits, decay_waits, response_waits, notify_reserver, apply_move, advance,
  remind, step_in, step, steps,
}
use yaadegar.Decay.Rows.{Outcome, notified, reminded, swept_in}

abbrev pub on_rows : World → List Reservation → World
on_rows w l = record w { db = with_rows w.db l }

-- The world after a row at the head of the table has had its outcome.
abbrev pub settled : World → Outcome → List Reservation → World
settled w (r, ms) l = record { db = with_rows w.db (r ∷ l); sent = w.sent ++ ms }

apply_move_lem :
    (w : World) (res : Result (Bool × Db)) → apply_move w res ≡ record w { db = left w.db res }
unfolding apply_move
apply_move_lem w (ok (b, db)) = refl
apply_move_lem w (err e) = refl

-- A due transition of the row at the head.
move-head :
    (from : ReservationState) (update : Reservation → Reservation) (tenant id : String)
    (r : Reservation) (w : World) (l : List Reservation)
    → tenant ≡ r.tenant_id
    → id ≡ r.id
    → from ≡ r.state
    → Fresh r l
    → apply_move
        (on_rows w (r ∷ l))
        (transition_state tenant id from update (with_rows w.db (r ∷ l)))
      ≡ on_rows w (update r ∷ l)
move-head from update tenant id r w l t i s h =
    rw (t, i)
      (apply_move_lem _ _
        ∙ ap (λ (db : Db). record w { db = db }) (transition-head from update w.db r l h)
        ∙ ground arith)

module _ (cfg : Config) (env : Env) where
  advance-head :
      (c : DecayCandidate) (r : Reservation) (w : World) (l : List Reservation)
      (keep_hash release_hash : String) (m : Option Message)
      → c.tenant_id ≡ r.tenant_id
      → c.reservation_id ≡ r.id
      → ReservationState.active ≡ r.state
      → Fresh r l
      → advance env c keep_hash release_hash (on_rows w (r ∷ l)) m
        ≡ settled w (notified env r keep_hash release_hash m) l
  unfolding advance notified mark_reserver_notified
  advance-head c r w l k q none t i s h = rw append-nil
  advance-head c r w l k q (some m) t i s h =
      move-head _ (set_notified env.now k q) _ _ r (record w { sent = w.sent ++ m ∷ [] }) l t i s h

  remind-head :
      (c : DecayCandidate) (r : Reservation) (w : World) (l : List Reservation)
      (keep release : Option (String × String))
      → c.tenant_id ≡ r.tenant_id
      → c.reservation_id ≡ r.id
      → ReservationState.active ≡ r.state
      → Fresh r l
      → remind cfg env c keep release (on_rows w (r ∷ l))
        ≡ settled w (reminded cfg env c keep release r) l
  unfolding remind reminded
  remind-head c r w l none release t i s h = rw append-nil
  remind-head c r w l (some keep) none t i s h = rw append-nil
  remind-head c r w l (some (k, q)) (some (k', q')) t i s h =
      advance-head c r w l q q' (notify_reserver cfg env c k k') t i s h

  pub step-head :
      (s : ReservationState) (c : DecayCandidate) (r : Reservation) (w : World)
      (l : List Reservation)
      → c.tenant_id ≡ r.tenant_id
      → c.reservation_id ≡ r.id
      → s ≡ r.state
      → Fresh r l
      → step_in s cfg env (on_rows w (r ∷ l)) c ≡ settled w (swept_in s cfg env c r) l
  unfolding step_in swept_in expire_pending mark_expired
  step-head ReservationState.pending_confirmation c r w l t i s h =
      elim (Bool-cases (confirm_waits cfg env.now c)) [
        | inl e ↦ rw (e, append-nil)
        | inr e ↦ rw (e, append-nil) (move-head _ (set_expired env.now) _ _ r w l t i s h)
      ]
  step-head ReservationState.active c r w l t i s h =
      elim (Bool-cases (decay_waits cfg env.now c)) [
        | inl e ↦ rw (e, append-nil)
        | inr e ↦ rw e (remind-head c r w l _ _ t i s h)
      ]
  step-head ReservationState.reserver_notified c r w l t i s h =
      elim (Bool-cases (response_waits cfg env.now c)) [
        | inl e ↦ rw (e, append-nil)
        | inr e ↦ rw (e, append-nil) (move-head _ (set_expired env.now) _ _ r w l t i s h)
      ]
  step-head ReservationState.unset c r w l t i s h = rw append-nil
  step-head ReservationState.expired c r w l t i s h = rw append-nil

-- A row in front, with another key, is left alone.
abbrev pub under : Reservation → World → World
under r w = on_rows w (r ∷ w.db.reservations)

move-tail :
    (from : ReservationState) (update : Reservation → Reservation) (tenant id : String)
    (r : Reservation) (w : World)
    → row tenant id r ≡ false
    → apply_move (under r w) (transition_state tenant id from update (under r w).db)
      ≡ under r (apply_move w (transition_state tenant id from update w.db))
move-tail from update tenant id r w h =
    apply_move_lem _ _
    ∙ ap (λ (db : Db). record w { db = db }) (transition-tail from update w.db tenant id r h)
    ∙ ap (under r) (sym (apply_move_lem w (transition_state tenant id from update w.db)))

module _ (cfg : Config) (env : Env) where
  advance-tail :
      (c : DecayCandidate) (r : Reservation) (w : World) (k q : String) (m : Option Message)
      → row c.tenant_id c.reservation_id r ≡ false
      → advance env c k q (under r w) m ≡ under r (advance env c k q w m)
  unfolding advance mark_reserver_notified
  advance-tail c r w k q none h = refl
  advance-tail c r w k q (some m) h =
      move-tail _ (set_notified env.now k q) _ _ r (record w { sent = w.sent ++ m ∷ [] }) h

  remind-tail :
      (c : DecayCandidate) (r : Reservation) (w : World) (keep release : Option (String × String))
      → row c.tenant_id c.reservation_id r ≡ false
      → remind cfg env c keep release (under r w) ≡ under r (remind cfg env c keep release w)
  unfolding remind
  remind-tail c r w none release h = refl
  remind-tail c r w (some keep) none h = refl
  remind-tail c r w (some (k, q)) (some (k', q')) h =
      advance-tail c r w q q' (notify_reserver cfg env c k k') h

  pub step-tail :
      (s : ReservationState) (c : DecayCandidate) (r : Reservation) (w : World)
      → row c.tenant_id c.reservation_id r ≡ false
      → step_in s cfg env (under r w) c ≡ under r (step_in s cfg env w c)
  unfolding step_in expire_pending mark_expired
  step-tail ReservationState.pending_confirmation c r w h =
      elim (Bool-cases (confirm_waits cfg env.now c)) [
        | inl e ↦ rw e
        | inr e ↦ rw e (move-tail _ (set_expired env.now) _ _ r w h)
      ]
  step-tail ReservationState.active c r w h = elim (Bool-cases (decay_waits cfg env.now c)) [
    | inl e ↦ rw e
    | inr e ↦ rw e (remind-tail c r w _ _ h)
  ]
  step-tail ReservationState.reserver_notified c r w h =
      elim (Bool-cases (response_waits cfg env.now c)) [
        | inl e ↦ rw e
        | inr e ↦ rw e (move-tail _ (set_expired env.now) _ _ r w h)
      ]
  step-tail ReservationState.unset c r w h = refl
  step-tail ReservationState.expired c r w h = refl

  -- No candidate has the key of `r`.
  abbrev pub Others : Reservation → List DecayCandidate → Type 0
  Others r = All (λ c. row c.tenant_id c.reservation_id r ≡ false)

  pub steps-tail :
      (cs : List DecayCandidate) (r : Reservation) (w : World)
      → Others r cs
      → steps cfg env (under r w) cs ≡ under r (steps cfg env w cs)
  unfolding steps step
  steps-tail [] r w h = refl
  steps-tail (c ∷ cs) r w h =
      ap (λ (v : World). steps cfg env v cs) (step-tail c.state c r w h.0)
      ∙ steps-tail cs r (step_in c.state cfg env w c) h.1
