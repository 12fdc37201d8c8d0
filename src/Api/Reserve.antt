-- ===== src/Api/Reserve.antt =====
-- `CreateReservation` and `reserveEmailConfirmed` of internal/api/reservations.go.
pub mod Refusals
pub mod Guest
use yaadegar.Base.{
  false, String, not, ◌==◌, [], ◌∷◌, ◌++◌, Option, none, some, if◌then◌else◌, concat,
}
use yaadegar.Base.Int.{ℤ, pos, ltb_ℤ}
use yaadegar.Storage.{
  Result, ok, err, Error, other, cross_track_conflict, capacity_exceeded, Time, zero_time, GiftList,
  Item, Reservation, ReservationState, ReserverTier,
}
use yaadegar.Settings.{resolve}
use yaadegar.Email.{Message}
use yaadegar.Sqlstore.Db.{Db}
use yaadegar.Sqlstore.Reservations
use yaadegar.World.{World}
use yaadegar.Api.{Server, Runtime, Reply, Handler, with_tenant, on_not_found}
use yaadegar.Api.Deadline.{confirm_deadline, confirm_message}
use yaadegar.Api.Offer.{Offer, offer}
use yaadegar.Api.ThankYou.{send_thank_you}

pub record ReserveBody : Type 0 where
  pub quantity : Option ℤ
  pub giver_name : Option String
  pub giver_email : Option String
  pub captcha_token : Option String

pub record ReserveRequest : Type 0 where
  pub share_slug : String
  pub item_id : String
  pub body : Option ReserveBody

-- `qty := 1`, overwritten by a positive quantity of the body.
abbrev pub positive_or_one : Option ℤ → ℤ
positive_or_one none = pos 1
positive_or_one (some q) = if ltb_ℤ (pos 0) q then q else pos 1

abbrev pub empty_body : ReserveBody
empty_body = record { quantity = none; giver_name = none; giver_email = none; captcha_token = none }

abbrev pub body_or_empty : Option ReserveBody → ReserveBody
body_or_empty none = empty_body
body_or_empty (some b) = b

abbrev pub or_empty : Option String → String
or_empty none = ""
or_empty (some s) = s

-- The refusal of the gate, if it refuses.
unfoldable pub captcha_gate : Server → Runtime → String → Option Reply
captcha_gate s rt tok =
    if not s.captcha_enabled
    then none
    else (if tok == ""
        then some (Reply.problem 400 "captcha verification is required to reserve on this list")
        else (if rt.verify_captcha tok
            then none
            else some (Reply.problem 400 "captcha verification failed")))

-- The errors of `CreateWithinCapacity` as replies.
abbrev pub on_capacity : Error → Reply
on_capacity cross_track_conflict =
    Reply.problem 409 "this item is being co-bought and can't be reserved"
on_capacity capacity_exceeded = Reply.problem 409 "the item is already fully reserved"
on_capacity e = on_not_found 404 "item not found" e

-- A row as the handlers fill it in; the repository's `prep` sets the rest.
abbrev pub blank_reservation : Reservation
blank_reservation = record {
  id = "";
  tenant_id = "";
  item_id = "";
  giver_name = none;
  giver_email = none;
  quantity = pos 0;
  token_hash = "";
  created_at = zero_time;
  last_activity_at = zero_time;
  is_group = false;
  state = ReservationState.unset;
  state_at = zero_time;
  confirm_token_hash = "";
  email_confirmed_at = none;
  decay_release_token_hash = "";
  decay_keep_token_hash = "";
  reserver_user_id = none;
}

guest_row : Item → ℤ → ReserveBody → String → Reservation
guest_row it qty b hash = record blank_reservation {
  item_id = it.id;
  giver_name = b.giver_name;
  giver_email = b.giver_email;
  quantity = qty;
  token_hash = hash;
  state = ReservationState.active;
}

after_guest : Runtime → String → String → World → Result (Reservation × Db) → Reply × World
after_guest rt tenant raw w (err e) = (on_capacity e, w)
after_guest rt tenant raw w (ok (res, db)) =
    (Reply.reserved res.id (some raw), send_thank_you rt tenant res (record w { db = db }))

reserve_guest : Runtime → String → Item → ReserveBody → Option (String × String) → Handler
unfolding guest_row after_guest
reserve_guest rt tenant it b none w = (Reply.failed other, w)
reserve_guest rt tenant it b (some (raw, hash)) w = after_guest rt tenant raw w (
    Reservations.create_within_capacity tenant rt.new_id rt.now
      (guest_row it (positive_or_one b.quantity) b hash) it.quantity_wanted w.db)

-- The sentinel in `token_hash` of a row that has no capability token yet.
abbrev pub pending_token_hash : String → String
pending_token_hash id = concat "pending:" id

pending_row : Item → ℤ → ReserveBody → String → String → Reservation
pending_row it qty b res_id confirm_hash = record blank_reservation {
  id = res_id;
  item_id = it.id;
  giver_name = b.giver_name;
  giver_email = b.giver_email;
  quantity = qty;
  token_hash = pending_token_hash res_id;
  confirm_token_hash = confirm_hash;
  state = ReservationState.pending_confirmation;
}

-- The mail was refused: the hold is deleted again.
roll_back : World → Db → Result (Unit {0} × Db) → Reply × World
roll_back w db (err e) = (Reply.failed e, record w { db = db })
roll_back w db (ok (_, db')) = (
  Reply.problem 503 "could not send the confirmation email; please try reserving again",
  record w { db = db' },
)

rendered : Runtime → Option Time → Option String
rendered rt none = none
rendered rt (some t) = some (rt.format_instant t)

mail_confirm : Runtime → String → World → Reservation → Db → Option Time → Message → Reply × World
unfolding roll_back rendered
mail_confirm rt tenant w res db deadline m =
    if rt.send m
    then (
      Reply.pending res.id deadline (rendered rt deadline),
      record w { db = db; sent = w.sent ++ m ∷ [] },
    )
    else roll_back w db (Reservations.delete tenant res.id db)

after_pending :
    Server
    → Runtime
    → String
    → GiftList
    → Item
    → String
    → String
    → World
    → Result (Reservation × Db)
    → Reply × World
unfolding confirm_deadline confirm_message mail_confirm
after_pending s rt tenant l it raw to w (err e) = (on_capacity e, w)
after_pending s rt tenant l it raw to w (ok (res, db)) =
    let deadline = confirm_deadline s l res in
    mail_confirm rt tenant w res db deadline (confirm_message s rt it res deadline raw to)

reserve_to :
    Server
    → Runtime
    → String
    → GiftList
    → Item
    → ReserveBody
    → String
    → Option (String × String)
    → Handler
unfolding pending_row after_pending
reserve_to s rt tenant l it b to none w = (Reply.failed other, w)
reserve_to s rt tenant l it b to (some (raw, hash)) w = after_pending s rt tenant l it raw to w (
    Reservations.create_within_capacity tenant rt.new_id rt.now
      (pending_row it (positive_or_one b.quantity) b rt.new_id hash) it.quantity_wanted w.db)

unfoldable pub reserve_email_confirmed :
    Server → Runtime → String → GiftList → Item → ReserveBody → Handler
unfolding reserve_to
reserve_email_confirmed s rt tenant l it b w =
    let to = or_empty b.giver_email in
    if to == ""
    then (Reply.problem 400 "an email address is required to reserve on this list", w)
    else (if rt.parses_address to
        then reserve_to s rt tenant l it b to rt.new_token w
        else (Reply.problem 400 "that email address is not valid", w))

reserve_at : ReserverTier → Server → Runtime → String → GiftList → Item → ReserveBody → Handler
unfolding reserve_email_confirmed reserve_guest
reserve_at ReserverTier.email_confirmed s rt tenant l it b w =
    reserve_email_confirmed s rt tenant l it b w
reserve_at ReserverTier.registered s rt tenant l it b w = (
  Reply.problem 401
      "this list requires a registered account; sign in and reserve from your account",
  w,
)
reserve_at _ s rt tenant l it b w = reserve_guest rt tenant it b rt.new_token w

-- The gate stands before every tier but `registered`.
gate_at : ReserverTier → Server → Runtime → String → Option Reply
unfolding captcha_gate
gate_at ReserverTier.registered s rt tok = none
gate_at _ s rt tok = captcha_gate s rt tok

reserve_offered : Server → Runtime → String → ReserveBody → Offer → Handler
unfolding gate_at reserve_at
reserve_offered s rt tenant b (Offer.refused r) w = (r, w)
reserve_offered s rt tenant b (Offer.offered l it) w =
    let tier = resolve l.reserver_tier s.default_reserver_tier in
    elim (gate_at tier s rt (or_empty b.captcha_token)) [
      | some r ↦ (r, w)
      | none ↦ reserve_at tier s rt tenant l it b w
    ]

unfoldable pub create_reservation : Server → Runtime → Option String → ReserveRequest → Handler
unfolding reserve_offered
create_reservation s rt ctx req = with_tenant ctx (λ tenant w.
    reserve_offered s rt tenant (body_or_empty req.body)
      (offer tenant rt.now req.share_slug req.item_id w.db) w)
