-- ===== src/Api/Deadline.antt =====
-- `confirmDeadline` and `humanDuration` of internal/api/reservations.go, and the message that states
-- the deadline.
pub mod Enforced
pub mod Exact
use yaadegar.Base.{
  ℕ, zero, suc, ◌/◌, ◌%◌, leb, true, false, ◌&&◌, String, Bool, ◌==◌, List, [], ◌∷◌, Option, none,
  some, if◌then◌else◌, concat,
}
use yaadegar.Base.Int.{ℤ, pos, negsuc, leb_ℤ, ◌+ℤ◌}
use yaadegar.Base.Int64.{sub_time}
use yaadegar.Storage.{Time, Duration, GiftList, Item, Reservation}
use yaadegar.Settings.{resolve_minutes}
use yaadegar.Email.{Message}
use yaadegar.Api.{Server, Runtime}

-- The instant at which the confirm window ends, or none where there is no window.
unfoldable pub confirm_deadline : Server → GiftList → Reservation → Option Time
confirm_deadline s l res =
    let window = resolve_minutes l.reserver_confirm_window_minutes s.reserver_confirm_window in
    if leb_ℤ window (pos 0) then none else some (res.state_at +ℤ window)

-- Go's division by a positive number, which rounds towards zero.
abbrev pub neg : ℕ → ℤ
neg zero = pos 0
neg (suc n) = negsuc n

abbrev pub quot : ℤ → ℕ → ℤ
quot (pos n) k = pos (n / k)
quot (negsuc n) k = neg (suc n / k)

abbrev pub is_one : ℤ → Bool
is_one (pos (suc zero)) = true
is_one _ = false

abbrev pub unit : Runtime → ℤ → String → String
unit rt n name =
    if is_one n then concat "1 " name else concat (concat (concat (rt.itoa n) " ") name) "s"

-- `d >= k && d%k == 0`
abbrev pub whole : ℤ → ℕ → Bool
whole (pos n) k = leb k n && leb (n % k) 0
whole (negsuc n) k = false

unfoldable pub human_duration : Runtime → Duration → String
human_duration rt d =
    if whole d 86_400_000_000_000
    then unit rt (quot d 86_400_000_000_000) "day"
    else (if whole d 3_600_000_000_000
        then unit rt (quot d 3_600_000_000_000) "hour"
        else unit rt (quot d 60_000_000_000) "minute")

deadline_outro : Runtime → Reservation → Option Time → List String
unfolding human_duration
deadline_outro rt res none = []
deadline_outro rt res (some deadline) =
    concat "You have " (
      concat (human_duration rt (sub_time deadline res.state_at)) (
        concat " to confirm, until " (
          concat (rt.format_instant deadline)
            ". After that the item is released for someone else to give.")))
    ∷ []

unfoldable pub confirm_message :
    Server → Runtime → Item → Reservation → Option Time → String → String → Message
unfolding deadline_outro
confirm_message s rt it res deadline raw to =
    let what = if it.name == "" then "the item you reserved" else it.name in
    record {
      to = to;
      subject = "Confirm your reservation";
      body = record {
        title = "Confirm your reservation";
        intro =
            concat "You reserved " (concat what ". Confirm it so the owner knows it is taken.")
            ∷ [];
        action = some (record {
          label = "Confirm the reservation";
          url = concat (concat s.public_link_base "/confirm?token=") raw;
        });
        secondary = none;
        outro = deadline_outro rt res deadline;
      };
    }
