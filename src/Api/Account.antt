-- ===== src/Api/Account.antt =====
-- internal/api/myreservations.go: the reservations of a registered account.
use yaadegar.Base.{String, not, ◌||◌, ◌==◌, Option, none, some, if◌then◌else◌, concat, points_to}
use yaadegar.Base.Int.{ℤ}
use yaadegar.Storage.{Result, ok, err, Item, Reservation, ReservationState}
use yaadegar.Sqlstore.Db.{Db}
use yaadegar.Sqlstore.Reservations
use yaadegar.World.{World}
use yaadegar.Api.{Runtime, Reply, Handler, with_tenant, on_not_found}
use yaadegar.Api.Offer.{Offer, offer}
use yaadegar.Api.ThankYou.{send_thank_you}
use yaadegar.Api.Reserve.{blank_reservation, positive_or_one, on_capacity}
use yaadegar.Api.Release.{delete_row}

-- The fields of `storage.User` that are read.
pub record User : Type 0 where
  pub id : String
  pub email : String
  pub name : String

pub record AccountBody : Type 0 where
  pub share_slug : String
  pub item_id : String
  pub quantity : Option ℤ

abbrev pub with_user : Option User → (User → Handler) → Handler
with_user none fn w = (Reply.missing_context, w)
with_user (some user) fn w = fn user w

-- The sentinel in `token_hash` of a row that is managed by an account.
abbrev pub account_token_hash : String → String
account_token_hash id = concat "account:" id

abbrev pub if_set : String → Option String
if_set s = if s == "" then none else some s

account_row : Item → ℤ → User → String → Reservation
account_row it qty user res_id = record blank_reservation {
  id = res_id;
  item_id = it.id;
  quantity = qty;
  token_hash = account_token_hash res_id;
  state = ReservationState.active;
  reserver_user_id = some user.id;
  giver_email = if_set user.email;
  giver_name = if_set user.name;
}

after_account : Runtime → String → World → Result (Reservation × Db) → Reply × World
after_account rt tenant w (err e) = (on_capacity e, w)
after_account rt tenant w (ok (res, db)) =
    (Reply.reserved res.id none, send_thank_you rt tenant res (record w { db = db }))

reserve_offered : Runtime → String → User → Option ℤ → Offer → Handler
unfolding account_row after_account
reserve_offered rt tenant user qty (Offer.refused r) w = (r, w)
reserve_offered rt tenant user qty (Offer.offered l it) w = after_account rt tenant w (
    Reservations.create_within_capacity tenant rt.new_id rt.now
      (account_row it (positive_or_one qty) user rt.new_id) it.quantity_wanted w.db)

abbrev pub fields_required : Reply
fields_required = Reply.problem 400 "share_slug and item_id are required"

reserve_body : Runtime → String → User → Option AccountBody → Handler
unfolding reserve_offered
reserve_body rt tenant user none w = (fields_required, w)
reserve_body rt tenant user (some b) w =
    if b.share_slug == "" || b.item_id == ""
    then (fields_required, w)
    else reserve_offered rt tenant user b.quantity (offer tenant rt.now b.share_slug b.item_id w.db)
        w

unfoldable pub create_my_reservation :
    Runtime → Option String → Option User → Option AccountBody → Handler
unfolding reserve_body
create_my_reservation rt ctx user body =
    with_tenant ctx (λ tenant. with_user user (λ u. reserve_body rt tenant u body))

delete_found : String → User → Result Reservation → Handler
unfolding delete_row
delete_found tenant user (err e) w = (on_not_found 404 "reservation not found" e, w)
delete_found tenant user (ok res) w =
    if not (points_to res.reserver_user_id user.id)
    then (Reply.problem 404 "reservation not found", w)
    else delete_row tenant res.id w

unfoldable pub delete_my_reservation : Option String → Option User → String → Handler
unfolding delete_found
delete_my_reservation ctx user id =
    with_tenant ctx
      (λ tenant. with_user user (λ u w. delete_found tenant u (Reservations.get tenant id w.db) w))
