-- ===== src/Decay.antt =====
-- internal/decay/decay.go, with the query of internal/storage/sqlstore/decay.go that feeds it: the
-- sweep that asks the giver of an ageing reservation to keep or release it, and that frees the item
-- when no answer comes.
pub mod Rows
use yaadegar.Base.{
  String, Bool, true, false, ◌&&◌, ◌||◌, not, ◌==◌, List, [], ◌∷◌, ◌++◌, Option, none, some,
  if◌then◌else◌, is_some, concat,
}
use yaadegar.Base.Int.{ℤ, pos, ltb_ℤ, leb_ℤ}
use yaadegar.Base.Int64.{mul64, sub_time}
use yaadegar.Base.Table.{select_row}
use yaadegar.Storage.{
  Result, ok, err, Time, Duration, hour, GiftList, Item, Reservation, DecayCandidate,
  ReservationState, is_live,
}
use yaadegar.World.{World}
use yaadegar.Settings.{resolve, resolve_minutes}
use yaadegar.Email.{Action, Content, Message}
use yaadegar.Sqlstore.Db.{Db, item_row}
use yaadegar.Sqlstore.Reservations.{mark_reserver_notified, mark_expired, expire_pending}

pub record Config : Type 0 where
  pub default_decay_days : ℤ
  pub response_window : Duration
  pub confirm_window : Duration
  pub link_base : String

-- What a pass takes from outside: the instant, the two tokens minted for a reservation (raw value and
-- hash, or a failure of the random source), and whether a message is accepted by the mail server.
pub record Env : Type 0 where
  pub now : Time
  pub keep_token : String → Option (String × String)
  pub release_token : String → Option (String × String)
  pub send : Message → Bool

-- The joins of `DecayCandidates`: the item of the row, the list of the item, on an active list and
-- not archived.
abbrev pub list_row : String → String → GiftList → Bool
list_row tenant id l = l.tenant_id == tenant && l.id == id

pub candidate_on : Reservation → Item → GiftList → Option DecayCandidate
candidate_on r i l =
    if is_live r.state && l.is_active && not (is_some i.archived_at)
    then some (record {
      tenant_id = r.tenant_id;
      reservation_id = r.id;
      item_id = r.item_id;
      item_name = i.name;
      giver_email = r.giver_email;
      state = r.state;
      last_activity_at = r.last_activity_at;
      state_at = r.state_at;
      decay_days = l.decay_days;
      reserver_confirm_window_minutes = l.reserver_confirm_window_minutes;
    })
    else none

join_list : Reservation → Item → Option GiftList → Option DecayCandidate
unfolding candidate_on
join_list r i none = none
join_list r i (some l) = candidate_on r i l

join_item : List GiftList → Reservation → Option Item → Option DecayCandidate
unfolding join_list
join_item lists r none = none
join_item lists r (some i) = join_list r i (select_row (list_row r.tenant_id i.list_id) lists)

-- The candidate that the query makes of a reservation.
unfoldable pub candidate : List GiftList → List Item → Reservation → Option DecayCandidate
unfolding join_item
candidate lists items r = join_item lists r (select_row (item_row r.tenant_id r.item_id) items)

cons_some {ℓ} : {A : Type ℓ} → Option A → List A → List A
cons_some none xs = xs
cons_some (some x) xs = x ∷ xs

-- `ORDER BY r.tenant_id, r.id` is not modelled: the candidates come in the order of the table.
unfoldable pub candidates : List GiftList → List Item → List Reservation → List DecayCandidate
unfolding candidate cons_some
candidates lists items [] = []
candidates lists items (r ∷ rs) = cons_some (candidate lists items r) (candidates lists items rs)

abbrev pub days_duration : ℤ → Duration
days_duration days = mul64 (mul64 days (pos 24)) hour

-- Each wait of `step`: still running, or switched off by a window that is not positive.
unfoldable pub confirm_waits : Config → Time → DecayCandidate → Bool
confirm_waits cfg now c =
    let window = resolve_minutes c.reserver_confirm_window_minutes cfg.confirm_window in
    leb_ℤ window (pos 0) || ltb_ℤ (sub_time now c.state_at) window

unfoldable pub decay_waits : Config → Time → DecayCandidate → Bool
decay_waits cfg now c =
    let days = resolve c.decay_days cfg.default_decay_days in
    leb_ℤ days (pos 0) || ltb_ℤ (sub_time now c.last_activity_at) (days_duration days)

unfoldable pub response_waits : Config → Time → DecayCandidate → Bool
response_waits cfg now c = ltb_ℤ (sub_time now c.state_at) cfg.response_window

abbrev pub subject : String
subject = "Still planning to buy your reserved gift?"

unfoldable pub reminder : Config → DecayCandidate → String → String → String → Message
reminder cfg c keep_raw release_raw to = record {
  to = to;
  subject = subject;
  body = record {
    title = subject;
    intro =
        concat (concat "You reserved " c.item_name)
          " a while ago. If you are still planning to buy it, keep your reservation and we will stop asking for now."
        ∷ [];
    action = some (record {
      label = "Keep my reservation";
      url = concat (concat cfg.link_base "/decay-keep?token=") keep_raw;
    });
    secondary = some (record {
      label = "Release it for someone else";
      url = concat (concat cfg.link_base "/decay-release?token=") release_raw;
    });
    outro = [];
  };
}

-- `notifyReserver`: the message that goes out, or none where there is no address or the send fails.
accepted : Env → Message → Option Message
accepted env m = if env.send m then some m else none

unfoldable pub notify_reserver : Config → Env → DecayCandidate → String → String → Option Message
unfolding accepted
notify_reserver cfg env c keep_raw release_raw = elim c.giver_email [
  | none ↦ none
  | some to ↦ if to == "" then none else accepted env (reminder cfg c keep_raw release_raw to)
]

-- The result of a transition; a failed one is logged, and leaves the database as it was.
unfoldable pub apply_move : World → Result (Bool × Db) → World
apply_move w (ok (moved, db)) = record w { db = db }
apply_move w (err e) = w

-- The message has gone out before the row is moved.
advance : Env → DecayCandidate → String → String → World → Option Message → World
unfolding apply_move
advance env c keep_hash release_hash w none = w
advance env c keep_hash release_hash w (some m) =
    let w' = record w { sent = w.sent ++ m ∷ [] } in
    apply_move w'
      (mark_reserver_notified c.tenant_id c.reservation_id env.now keep_hash release_hash w'.db)

remind :
    Config
    → Env
    → DecayCandidate
    → Option (String × String)
    → Option (String × String)
    → World
    → World
unfolding advance
remind cfg env c none release w = w
remind cfg env c (some keep) none w = w
remind cfg env c (some (keep_raw, keep_hash)) (some (release_raw, release_hash)) w =
    advance env c keep_hash release_hash w (notify_reserver cfg env c keep_raw release_raw)

pub step_in : ReservationState → Config → Env → World → DecayCandidate → World
unfolding remind
step_in ReservationState.pending_confirmation cfg env w c =
    if confirm_waits cfg env.now c
    then w
    else apply_move w (expire_pending c.tenant_id c.reservation_id env.now w.db)
step_in ReservationState.active cfg env w c =
    if decay_waits cfg env.now c
    then w
    else remind cfg env c (env.keep_token c.reservation_id) (env.release_token c.reservation_id) w
step_in ReservationState.reserver_notified cfg env w c =
    if response_waits cfg env.now c
    then w
    else apply_move w (mark_expired c.tenant_id c.reservation_id env.now w.db)
step_in _ cfg env w c = w

unfoldable pub step : Config → Env → World → DecayCandidate → World
unfolding step_in
step cfg env w c = step_in c.state cfg env w c

unfoldable pub steps : Config → Env → World → List DecayCandidate → World
unfolding step
steps cfg env w [] = w
steps cfg env w (c ∷ cs) = steps cfg env (step cfg env w c) cs

unfoldable pub sweep : Config → Env → World → World
unfolding steps candidates
sweep cfg env w = steps cfg env w (candidates w.db.lists w.db.items w.db.reservations)
