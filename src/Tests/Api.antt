-- ===== src/Tests/Api.antt =====
-- Runs of the handlers.
use yaadegar.Base.{String, Option, ◌≡◌, ap, ◌⊎◌, refl, [], ◌∷◌, some, none, string_discrete}
use yaadegar.Base.Int.{pos, ◌+ℤ◌}
use yaadegar.Base.Int64.{add64, wrap64}
use yaadegar.Base.Table.{select_row, select_where, count_where, update_where, delete_where}
use yaadegar.Storage.{ok, Reservation, GiftList, ReserverTier, ReservationState-discrete}
use yaadegar.Api.{Runtime}
use yaadegar.Api.Reserve.{ReserveRequest}
use yaadegar.Sqlstore.Reservations
use yaadegar.Sqlstore.Lists
use yaadegar.Sqlstore.Items
use yaadegar.World.{World}
use yaadegar.Api.{Reply}
use yaadegar.Api.Offer.{offer, list_disabled}
use yaadegar.Api.Deadline.Exact.{human_duration-exact, Spells}
use yaadegar.Api.Reserve.{create_reservation, reserve_email_confirmed, captcha_gate}
use yaadegar.Api.Reserve.Refusals.{create_reservation-refused, grants}
use yaadegar.Api.Confirm.{confirm_reservation}
use yaadegar.Api.Confirm.Once.{confirm_reservation-again, issues}
use yaadegar.Api.Release.{release_reservation}
use yaadegar.Api.Release.Roundtrip.{release-create_reservation}
use yaadegar.Tests.Fixtures.{gifts, db0, world0, server, runtime, mute, ask_kettle}

-- An empty shelf of reservations.
abbrev free : World
free = record { db = record db0 { reservations = [] }; sent = [] }

reserve_run :
    (create_reservation server runtime (some "alice") ask_kettle free).0
    ≡ Reply.reserved "r9" (some "raw9")
unfolding create_reservation offer list_disabled Lists.get_by_slug Lists.get_by Items.get
    captcha_gate Reservations.create_within_capacity Reservations.create_checked Reservations.insert
    Reservations.prep select_row select_where count_where add64 wrap64 ◌+ℤ◌ string_discrete
reserve_run = refl

abbrev handed_out : Option String
handed_out = some "raw9"

-- The kettle is reserved and released again.
after_reserve : World
after_reserve = (create_reservation server runtime (some "alice") ask_kettle free).1

release-create_reservation_example :
    (handed_out ≡ some "raw9")
    × (release_reservation runtime (some "alice") "r9" "raw9" after_reserve
        ≡ (Reply.no_content, record after_reserve { db = free.db }))
unfolding after_reserve string_discrete
release-create_reservation_example =
    release-create_reservation server runtime "alice" ask_kettle free "r9" "raw9" "hash9" handed_out
      refl refl refl reserve_run

-- On a list that asks for confirmation, with a mail server that takes nothing.
abbrev confirmed_list : GiftList
confirmed_list = record gifts { reserver_tier = some ReserverTier.email_confirmed }

abbrev on_confirmed : World
on_confirmed = record {
  db = record db0 { lists = confirmed_list ∷ []; reservations = [] };
  sent = [];
}

abbrev with_email : ReserveRequest
with_email = record {
  share_slug = "slug";
  item_id = "i1";
  body = some (record {
    quantity = some (pos 1);
    giver_name = none;
    giver_email = some "g@example.com";
    captcha_token = none;
  });
}

refusal_run :
    (create_reservation server mute (some "alice") with_email on_confirmed).0
    ≡ Reply.problem 503 "could not send the confirmation email; please try reserving again"
unfolding create_reservation offer list_disabled Lists.get_by_slug Lists.get_by Items.get
    captcha_gate reserve_email_confirmed Reservations.create_within_capacity
    Reservations.create_checked Reservations.insert Reservations.prep Reservations.delete
    delete_where select_row select_where count_where add64 wrap64 ◌+ℤ◌ string_discrete
refusal_run = refl

create_reservation-refused_example :
    (create_reservation server mute (some "alice") with_email on_confirmed).1 ≡ on_confirmed
create_reservation-refused_example =
    create_reservation-refused server mute (some "alice") with_email on_confirmed
      (ap grants refusal_run)

-- The link of the unconfirmed reservation is used twice.
abbrev runtime_c2 : Runtime
runtime_c2 = record runtime { hash = λ raw. "c2" }

confirm_run :
    (confirm_reservation runtime_c2 (some "alice") "link" world0).0
    ≡ Reply.confirmed "r2" (some "raw9")
unfolding confirm_reservation Reservations.by_confirm_token_hash Reservations.get_by
    Reservations.confirm_reservation Reservations.transition_state ReservationState-discrete
    select_row update_where string_discrete
confirm_run = refl

after_confirm : World
after_confirm = (confirm_reservation runtime_c2 (some "alice") "link" world0).1

confirm_reservation-again_example :
    (r : Reservation) × (Reservations.by_confirm_token_hash "alice" "c2" world0.db ≡ ok r)
    × (confirm_reservation runtime_c2 (some "alice") "link" after_confirm
        ≡ (Reply.confirmed r.id none, after_confirm))
unfolding after_confirm
confirm_reservation-again_example =
    confirm_reservation-again runtime_c2 runtime_c2 "alice" "link" world0 refl
      (ap issues confirm_run)

-- Ninety minutes.
human_duration-exact_example :
    Spells runtime 5_400_000_000_000 86_400_000_000_000 "day"
    ⊎ Spells runtime 5_400_000_000_000 3_600_000_000_000 "hour"
    ⊎ Spells runtime 5_400_000_000_000 60_000_000_000 "minute"
human_duration-exact_example = human_duration-exact runtime 90
