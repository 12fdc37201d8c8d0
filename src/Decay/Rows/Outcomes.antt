-- ===== src/Decay/Rows/Outcomes.antt =====
-- What a pass of the sweep of internal/decay/decay.go can and cannot do to a reservation.
use yaadegar.Base.{
  String, true, false, ◌++◌, ◌≡◌, refl, sym, ◌∙◌, ◌⊎◌, inl, inr, List, [], ◌∷◌, Option, none, some,
  arith, Option-cases, Bool-cases,
}
use yaadegar.Base.Int.{pos, ◌-ℤ◌, ◌≤ℤ◌}
use yaadegar.Base.Int64.{sub_time}
use yaadegar.Base.Table.{select_row}
use yaadegar.Storage.{GiftList, Item, Reservation, DecayCandidate, ReservationState, Time}
use yaadegar.Email.{Message}
use yaadegar.Sqlstore.Db.{item_row}
use yaadegar.Sqlstore.Reservations.{set_expired, set_notified}
use yaadegar.Decay.{
  Config, Env, candidate, candidate_on, join_list, join_item, confirm_waits, decay_waits,
  response_waits, notify_reserver, accepted, reminder, sweep,
}
use yaadegar.Sqlstore.Reservations.Moves.{Unique}
use yaadegar.World.{World}
use yaadegar.Decay.Rows.Sweep.{rows_after, mail, sweep_rows}
use yaadegar.Decay.Rows.{Outcome, notified, reminded, swept_in, swept_as, swept}

-- The query does not select a row that is expired, or whose item is archived.
pub candidate-expired :
    (lists : List GiftList) (items : List Item) (r : Reservation)
    → r.state ≡ ReservationState.expired
    → candidate lists items r ≡ none
unfolding candidate join_item join_list candidate_on
candidate-expired lists items r h =
    ground (arith, Option-cases (select_row (item_row r.tenant_id r.item_id) items))

pub sub_time_self : (t : Time) → sub_time t t ≡ pos 0
unfolding sub_time ◌-ℤ◌
sub_time_self t = ground arith

-- What one pass at `env.now` can make of a row: it rests, it is freed without a message out of one of
-- the two states with a deadline, or its giver is asked by one accepted message.
pub data Pass (cfg : Config) (env : Env) (r : Reservation) (o : Outcome) : Type 0 where
  rests : o ≡ (r, []) → Pass cfg env r o
  lapses :
      (r.state ≡ ReservationState.pending_confirmation)
        ⊎ ((r.state ≡ ReservationState.reserver_notified)
            × (cfg.response_window ≤ℤ sub_time env.now r.state_at))
      → o ≡ (set_expired env.now r, [])
      → Pass cfg env r o
  asks :
      (keep_hash release_hash : String) (m : Message)
      → r.state ≡ ReservationState.active
      → r.giver_email ≡ some m.to
      → env.send m ≡ true
      → o ≡ (set_notified env.now keep_hash release_hash r, m ∷ [])
      → Pass cfg env r o

module _ (cfg : Config) (env : Env) where
  notify_reserver-to :
      (c : DecayCandidate) (k q : String) (m : Message)
      → notify_reserver cfg env c k q ≡ some m
      → (c.giver_email ≡ some m.to) × (env.send m ≡ true)
  unfolding notify_reserver accepted reminder
  notify_reserver-to c k q m h = ground arith

  notified-Pass :
      (r : Reservation) (k q : String) (o : Option Message)
      → r.state ≡ ReservationState.active
      → ((m : Message) → o ≡ some m → (r.giver_email ≡ some m.to) × (env.send m ≡ true))
      → Pass cfg env r (notified env r k q o)
  unfolding notified
  notified-Pass r k q none s h = rests refl
  notified-Pass r k q (some m) s h = asks k q m s (h m refl).0 (h m refl).1 refl

  reminded-Pass :
      (c : DecayCandidate) (keep release : Option (String × String)) (r : Reservation)
      → r.state ≡ ReservationState.active
      → c.giver_email ≡ r.giver_email
      → Pass cfg env r (reminded cfg env c keep release r)
  unfolding reminded
  reminded-Pass c none release r s g = rests refl
  reminded-Pass c (some k) none r s g = rests refl
  reminded-Pass c (some (k, q)) (some (k', q')) r s g =
      notified-Pass r q q' _ s
        (λ m h. let sent = notify_reserver-to c k k' m h in (sym g ∙ sent.0, sent.1))

  response_over :
      (c : DecayCandidate) (r : Reservation)
      → response_waits cfg env.now c ≡ false
      → c.state_at ≡ r.state_at
      → cfg.response_window ≤ℤ sub_time env.now r.state_at
  unfolding response_waits
  response_over c r over a = rw (← a) (ground arith)

  swept_in-Pass :
      (s : ReservationState) (c : DecayCandidate) (r : Reservation)
      → s ≡ r.state
      → c.giver_email ≡ r.giver_email
      → c.state_at ≡ r.state_at
      → Pass cfg env r (swept_in s cfg env c r)
  unfolding swept_in
  swept_in-Pass ReservationState.pending_confirmation c r s g a =
      elim (Bool-cases (confirm_waits cfg env.now c)) [
        | inl e ↦ rw e (rests refl)
        | inr e ↦ rw e (lapses (inl (sym s)) refl)
      ]
  swept_in-Pass ReservationState.active c r s g a = elim (Bool-cases (decay_waits cfg env.now c)) [
    | inl e ↦ rw e (rests refl)
    | inr e ↦ rw e (reminded-Pass c _ _ r (sym s) g)
  ]
  swept_in-Pass ReservationState.reserver_notified c r s g a =
      elim (Bool-cases (response_waits cfg env.now c)) [
        | inl e ↦ rw e (rests refl)
        | inr e ↦ rw e (lapses (inr (sym s, response_over c r e a)) refl)
      ]
  swept_in-Pass ReservationState.unset c r s g a = rests refl
  swept_in-Pass ReservationState.expired c r s g a = rests refl

  -- A candidate carries its row's state, address and instants.
  abbrev pub Copies : Option DecayCandidate → Reservation → Type 0
  Copies none r = Unit {0}
  Copies (some c) r =
      (c.state ≡ r.state)
      × (c.giver_email ≡ r.giver_email)
      × (c.state_at ≡ r.state_at)
      × (c.last_activity_at ≡ r.last_activity_at)

  pub candidate-Copies :
      (lists : List GiftList) (items : List Item) (r : Reservation)
      → Copies (candidate lists items r) r
  unfolding candidate join_item join_list candidate_on
  candidate-Copies lists items r =
      ground (arith, Option-cases (select_row (item_row r.tenant_id r.item_id) items))

  swept_as-Pass :
      (r : Reservation) (o : Option DecayCandidate)
      → Copies o r
      → Pass cfg env r (swept_as cfg env r o)
  unfolding swept_as
  swept_as-Pass r none h = rests refl
  swept_as-Pass r (some c) h = swept_in-Pass c.state c r h.0 h.1 h.2

  pub swept-Pass :
      (lists : List GiftList) (items : List Item) (r : Reservation)
      → Pass cfg env r (swept cfg env lists items r)
  unfolding swept
  swept-Pass lists items r = swept_as-Pass r _ (candidate-Copies lists items r)

-- A pass over a table: the rows before, the rows after, and the messages in the order of the rows.
pub data Passes (cfg : Config) (env : Env)
    : List Reservation → List Reservation → List Message → Type 0 where
  done : Passes cfg env [] [] []
  passes :
      {rs rs' : List Reservation} {ms : List Message} (r r' : Reservation) (m : List Message)
      → Pass cfg env r (r', m)
      → Passes cfg env rs rs' ms
      → Passes cfg env (r ∷ rs) (r' ∷ rs') (m ++ ms)

rows-Passes :
    (cfg : Config) (env : Env) (lists : List GiftList) (items : List Item) (rs : List Reservation)
    → Passes cfg env rs (rows_after cfg env lists items rs) (mail cfg env lists items rs)
rows-Passes cfg env lists items [] = done
rows-Passes cfg env lists items (r ∷ rs) =
    passes r _ _ (swept-Pass cfg env lists items r) (rows-Passes cfg env lists items rs)

-- The sweep treats the reservations one by one. It leaves one as it is without a message; or frees it
-- without a message, which happens to a pending one, or to a notified one whose response window has
-- passed; or marks an active one notified, which happens only with one message to its own giver that
-- the mail server accepted. It sends no other message. The condition is that no two reservations have
-- one key.
pub sweep-Passes :
    (cfg : Config) (env : Env) (w : World)
    → Unique w.db.reservations
    → (ms : List Message) × Passes cfg env w.db.reservations (sweep cfg env w).db.reservations ms
      × ((sweep cfg env w).sent ≡ w.sent ++ ms)
sweep-Passes cfg env w u = rw (sweep_rows cfg env w u) (
  mail cfg env w.db.lists w.db.items w.db.reservations,
  rows-Passes cfg env w.db.lists w.db.items w.db.reservations,
  refl,
)
