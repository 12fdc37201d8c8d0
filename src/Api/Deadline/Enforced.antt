-- ===== src/Api/Deadline/Enforced.antt =====
-- The deadline that the giver is told, and the sweep that enforces it.
use yaadegar.Base.{
  ◌≡◌, refl, Option, none, some, arith, if◌then◌else◌, ◌||◌, Bool, true, Bool-cases, inl, inr,
}
use yaadegar.Base.Int.{ℤ, pos, ◌+ℤ◌, ◌-ℤ◌, ltb_ℤ, leb_ℤ}
use yaadegar.Base.Int64.{IsInt64, sub_time, sub_time-lt, mul64, wrap64-IsInt64}
use yaadegar.Storage.{Time, Duration, GiftList, Reservation, DecayCandidate}
use yaadegar.Settings.{resolve_minutes}
use yaadegar.Decay.{confirm_waits, Config}
use yaadegar.Api.{Server}
use yaadegar.Api.Deadline.{confirm_deadline}

resolve_minutes-IsInt64 : (o : Option ℤ) (d : Duration) → IsInt64 d → IsInt64 (resolve_minutes o d)
unfolding resolve_minutes mul64
resolve_minutes-IsInt64 none d h = h
resolve_minutes-IsInt64 (some m) d h = wrap64-IsInt64 _

-- The hold has not run out, nor will it where there is no deadline.
abbrev pub waits_until : Time → Option Time → Bool
waits_until now none = true
waits_until now (some deadline) = ltb_ℤ now deadline

before-deadline : (now at window : ℤ) → ltb_ℤ (now -ℤ at) window ≡ ltb_ℤ now (at +ℤ window)
unfolding ◌-ℤ◌ ◌+ℤ◌
before-deadline now at window = ground arith

waits-deadline :
    (now at window : ℤ)
    → IsInt64 window
    → (leb_ℤ window (pos 0) || ltb_ℤ (sub_time now at) window)
      ≡ waits_until now (if leb_ℤ window (pos 0) then none else some (at +ℤ window))
waits-deadline now at window fits = elim (Bool-cases (leb_ℤ window (pos 0))) [
  | inl e ↦ rw e refl
  | inr e ↦
      rw (e, sub_time-lt now at window (ground arith) (omega arith)) (before-deadline now at window)
]

pub enforced_waits :
    (s : Server) (l : GiftList) (r : Reservation) (cfg : Config) (c : DecayCandidate) (now : Time)
    → s.reserver_confirm_window ≡ cfg.confirm_window
    → IsInt64 cfg.confirm_window
    → c.state_at ≡ r.state_at
    → c.reserver_confirm_window_minutes ≡ l.reserver_confirm_window_minutes
    → confirm_waits cfg now c ≡ waits_until now (confirm_deadline s l r)
unfolding confirm_waits confirm_deadline
enforced_waits s l r cfg c now same fits at_eq min_eq =
    let fits' = resolve_minutes-IsInt64 l.reserver_confirm_window_minutes cfg.confirm_window fits in
    rw (at_eq, min_eq, same) (waits-deadline now r.state_at _ fits')
