-- ===== src/Api/Deadline/Exact.antt =====
-- The number and the unit in which `humanDuration` of internal/api/reservations.go states a window.
use yaadegar.Base.{ℕ, String, ◌≡◌, ◌⊎◌, inl, inr, refl, arith, ◌*◌, ◌/◌, Bool-cases}
use yaadegar.Base.Int.{pos}
use yaadegar.Api.{Runtime}
use yaadegar.Api.Deadline.{human_duration, unit, whole}

-- `k` units of `size` nanoseconds each, written with the unit's name.
abbrev pub Spells : Runtime → ℕ → ℕ → String → Type 0
Spells rt n size name =
    (k : ℕ) × (human_duration rt (pos n) ≡ unit rt (pos k) name) × (k * size ≡ n)

-- A window of whole minutes is stated as what it is: the number of days, hours or minutes in the
-- text is exactly the window.
pub human_duration-exact :
    (rt : Runtime) (m : ℕ)
    → let n = m * 60_000_000_000 in
      Spells rt n 86_400_000_000_000 "day"
      ⊎ Spells rt n 3_600_000_000_000 "hour"
      ⊎ Spells rt n 60_000_000_000 "minute"
unfolding human_duration
human_duration-exact rt m =
    let n = m * 60_000_000_000 in
    elim (Bool-cases (whole (pos n) 86_400_000_000_000)) [
      | inl d ↦ inl (n / 86_400_000_000_000, rw d refl, ground arith)
      | inr d ↦ elim (Bool-cases (whole (pos n) 3_600_000_000_000)) [
        | inl e ↦ inr (inl (n / 3_600_000_000_000, rw (d, e) refl, ground arith))
        | inr e ↦ inr (inr (n / 60_000_000_000, rw (d, e) refl, omega arith))
      ]
    ]
