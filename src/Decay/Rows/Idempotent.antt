-- ===== src/Decay/Rows/Idempotent.antt =====
-- Re-running the sweep at the same instant.
use yaadegar.Base.{
  String, Bool, false, is_some, sym, ◌≡◌, refl, ◌∙◌, List, [], ◌∷◌, Option, none, some, arith,
}
use mathlib.Core.List.{append-nil}
use yaadegar.Base.Int.{pos, ◌<ℤ◌}
use yaadegar.Storage.{GiftList, Item, Reservation, DecayCandidate, ReservationState}
use yaadegar.Sqlstore.Reservations.Moves.{Unique, Fresh}
use yaadegar.World.{World}
use yaadegar.Decay.{Config, Env, response_waits, notify_reserver, sweep}
use yaadegar.Decay.Rows.{Outcome, notified, reminded, swept_in, swept_as, swept}
use yaadegar.Decay.Rows.Sweep.{rows_after, mail, sweep_rows}
use yaadegar.Decay.Rows.Outcomes.{
  Pass, rests, lapses, asks, swept-Pass, candidate-expired, candidate-Copies, Copies, sub_time_self,
}

-- Whether a pass gets the reminder for a candidate out.
abbrev pub reminds_with :
    Config → Env → DecayCandidate → Option (String × String) → Option (String × String) → Bool
reminds_with cfg env c none release = false
reminds_with cfg env c (some keep) none = false
reminds_with cfg env c (some keep) (some release) =
    is_some (notify_reserver cfg env c keep.0 release.0)

abbrev pub reminds : Config → Env → DecayCandidate → Bool
reminds cfg env c =
    reminds_with cfg env c (env.keep_token c.reservation_id) (env.release_token c.reservation_id)

-- The second pass is at the instant of the first, and gets no reminder out that the first did not.
pub record Repeats (cfg : Config) (env again : Env) : Type 0 where
  pub same_instant : again.now ≡ env.now
  pub no_more_mail : (c : DecayCandidate) → reminds cfg env c ≡ false → reminds cfg again c ≡ false

module _ (cfg : Config) (env : Env) where
  reminded-silent :
      (c : DecayCandidate) (k q : Option (String × String)) (r : Reservation)
      → reminded cfg env c k q r ≡ (r, [])
      → reminds_with cfg env c k q ≡ false
  unfolding reminded notified
  reminded-silent c none q r h = refl
  reminded-silent c (some k) none r h = refl
  reminded-silent c (some k) (some q) r h = ground arith

  silent-reminded :
      (c : DecayCandidate) (k q : Option (String × String)) (r : Reservation)
      → reminds_with cfg env c k q ≡ false
      → reminded cfg env c k q r ≡ (r, [])
  unfolding reminded notified
  silent-reminded c none q r h = refl
  silent-reminded c (some k) none r h = refl
  silent-reminded c (some k) (some q) r h = ground arith

module _ (cfg : Config) (env again : Env) (repeats : Repeats cfg env again) where
  reminded-again :
      (c : DecayCandidate) (r : Reservation)
      → reminded cfg env c (env.keep_token c.reservation_id) (env.release_token c.reservation_id) r
        ≡ (r, [])
      → reminded cfg again c
          (again.keep_token c.reservation_id)
          (again.release_token c.reservation_id)
          r
        ≡ (r, [])
  reminded-again c r h =
      silent-reminded cfg again c _ _ r (repeats.no_more_mail c (reminded-silent cfg env c _ _ r h))

  -- A row that was left alone is left alone again.
  swept_in-again :
      (s : ReservationState) (c : DecayCandidate) (r : Reservation)
      → s ≡ r.state
      → swept_in s cfg env c r ≡ (r, [])
      → swept_in s cfg again c r ≡ (r, [])
  unfolding swept_in
  swept_in-again ReservationState.pending_confirmation c r s h =
      rw repeats.same_instant (ground arith)
  swept_in-again ReservationState.active c r s h =
      rw repeats.same_instant (ground (arith, reminded-again c r))
  swept_in-again ReservationState.reserver_notified c r s h = rw repeats.same_instant (ground arith)
  swept_in-again ReservationState.unset c r s h = refl
  swept_in-again ReservationState.expired c r s h = refl

  swept_as-again :
      (r : Reservation) (o : Option DecayCandidate)
      → Copies cfg env o r
      → swept_as cfg env r o ≡ (r, [])
      → swept_as cfg again r o ≡ (r, [])
  unfolding swept_as
  swept_as-again r none c h = refl
  swept_as-again r (some c) copy h = swept_in-again c.state c r copy.0 h

module _ (cfg : Config) (env : Env) (lists : List GiftList) (items : List Item) where
  swept-expired :
      (r : Reservation) → r.state ≡ ReservationState.expired → swept cfg env lists items r ≡ (r, [])
  unfolding swept swept_as
  swept-expired r h = rw (candidate-expired lists items r h)

  swept_as-notified :
      (r : Reservation) (o : Option DecayCandidate)
      → Copies cfg env o r
      → r.state ≡ ReservationState.reserver_notified
      → r.state_at ≡ env.now
      → pos 0 <ℤ cfg.response_window
      → swept_as cfg env r o ≡ (r, [])
  unfolding swept_as swept_in response_waits
  swept_as-notified r none c s t w = refl
  swept_as-notified r (some c) h s t w = rw (h.0, s, h.2, t, sub_time_self env.now) (ground arith)

  -- A giver who was just asked has the whole response window.
  swept-notified :
      (r : Reservation)
      → r.state ≡ ReservationState.reserver_notified
      → r.state_at ≡ env.now
      → pos 0 <ℤ cfg.response_window
      → swept cfg env lists items r ≡ (r, [])
  unfolding swept
  swept-notified r s t w = swept_as-notified r _ (candidate-Copies cfg env lists items r) s t w

  Pass-key :
      (r : Reservation) (o : Outcome)
      → Pass cfg env r o
      → (o.0.tenant_id ≡ r.tenant_id) × (o.0.id ≡ r.id)
  Pass-key r o (rests e) = ground arith
  Pass-key r o (lapses s e) = ground arith
  Pass-key r o (asks k q m s g a e) = ground arith

  swept-key :
      (r : Reservation)
      → let r' = (swept cfg env lists items r).0 in (r'.tenant_id ≡ r.tenant_id) × (r'.id ≡ r.id)
  swept-key r = Pass-key r _ (swept-Pass cfg env lists items r)

  Fresh-rows_after :
      (r : Reservation) (rs : List Reservation)
      → Fresh r rs
      → Fresh (swept cfg env lists items r).0 (rows_after cfg env lists items rs)
  Fresh-rows_after r [] h = tt
  Fresh-rows_after r (y ∷ rs) h =
      let kr = swept-key r in
      let ky = swept-key y in (rw (kr.0, kr.1, ky.0, ky.1) h.0, Fresh-rows_after r rs h.1)

  pub rows_after-Unique :
      (rs : List Reservation) → Unique rs → Unique (rows_after cfg env lists items rs)
  rows_after-Unique [] u = tt
  rows_after-Unique (r ∷ rs) u = (Fresh-rows_after r rs u.0, rows_after-Unique rs u.1)

module _ (cfg : Config) (env again : Env) (repeats : Repeats cfg env again) (lists : List GiftList)
    (items : List Item) (window : pos 0 <ℤ cfg.response_window) where
  swept-rests :
      (r : Reservation)
      → swept cfg env lists items r ≡ (r, [])
      → swept cfg again lists items r ≡ (r, [])
  unfolding swept
  swept-rests r h =
      swept_as-again cfg env again repeats r _ (candidate-Copies cfg env lists items r) h

  swept_twice :
      (r : Reservation) (o : Outcome)
      → Pass cfg env r o
      → swept cfg env lists items r ≡ o
      → swept cfg again lists items o.0 ≡ (o.0, [])
  swept_twice r o (rests e) h = rw e (swept-rests r (h ∙ e))
  swept_twice r o (lapses s e) h = rw e (swept-expired cfg again lists items _ refl)
  swept_twice r o (asks k q m s g a e) h =
      rw e (swept-notified cfg again lists items _ refl (sym repeats.same_instant) window)

  rows_twice :
      (rs : List Reservation)
      → let rs' = rows_after cfg env lists items rs in
        (rows_after cfg again lists items rs' ≡ rs') × (mail cfg again lists items rs' ≡ [])
  rows_twice [] = (refl, refl)
  rows_twice (r ∷ rs) =
      let same = swept_twice r _ (swept-Pass cfg env lists items r) refl in
      (rw (same, (rows_twice rs).0), rw (same, (rows_twice rs).1))

-- Running the sweep again at the same instant changes no row and sends no further message, where the
-- second run gets no reminder out that the first did not: a message that was refused is refused again.
-- The tokens may be others. Reservations have distinct keys, and the response window is positive.
pub sweep-sweep :
    (cfg : Config) (env again : Env) (w : World)
    → Repeats cfg env again
    → Unique w.db.reservations
    → pos 0 <ℤ cfg.response_window
    → sweep cfg again (sweep cfg env w) ≡ sweep cfg env w
sweep-sweep cfg env again w repeats u h =
    let lists = w.db.lists in
    let items = w.db.items in
    let twice = rows_twice cfg env again repeats lists items h w.db.reservations in
    rw (sweep_rows cfg env w u) (
      sweep_rows cfg again _ (rows_after-Unique cfg env lists items _ u)
      ∙ rw (twice.0, twice.1, append-nil))
