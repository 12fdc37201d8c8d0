-- ===== src/Tests/Limiter.antt =====
-- Runs of the limiter of failed sign-ins.
use yaadegar.Base.{◌≡◌, refl, [], ◌∷◌, false, none, arith}
use yaadegar.Base.Int.{pos, ◌+ℤ◌}
use yaadegar.Limiter.{InMemoryLimiter, allow, allowed}
use yaadegar.Limiter.Sweeps.{Event, runs, remembers, allow-runs}
use yaadegar.Limiter.Lockout.{failures_of, allow-failures}
use yaadegar.Tests.Fixtures.{after_hours}

-- Three failures within an hour.
abbrev limiter : InMemoryLimiter
limiter = record {
  max_failures = pos 3;
  window = pos 3_600_000_000_000;
  entries = λ k. none;
  last_sweep = after_hours 0;
}

allow-failures_example :
    allow
      (runs (failures_of "ip" (after_hours 1 ∷ after_hours 1 ∷ after_hours 2 ∷ [])) limiter)
      (after_hours 2)
      "ip"
    ≡ false
unfolding ◌+ℤ◌
allow-failures_example =
    allow-failures limiter "ip" (after_hours 1) (after_hours 1 ∷ after_hours 2 ∷ []) (after_hours 2)
      refl refl (omega arith) (omega arith) (omega arith) (omega arith)

-- Two keys, with a sweep in between.
allow-runs_example :
    allow
      (runs
        (Event.fails (after_hours 1) "a"
          ∷ Event.fails (after_hours 3) "b"
          ∷ Event.succeeds "b"
          ∷ [])
        limiter)
      (after_hours 4)
      "a"
    ≡ allowed (pos 3) (after_hours 4) (
        remembers limiter.window
          (Event.fails (after_hours 1) "a"
            ∷ Event.fails (after_hours 3) "b"
            ∷ Event.succeeds "b"
            ∷ [])
          limiter.entries
          "a")
allow-runs_example =
    allow-runs
      (Event.fails (after_hours 1) "a" ∷ Event.fails (after_hours 3) "b" ∷ Event.succeeds "b" ∷ [])
      (after_hours 0) (after_hours 4) limiter "a" refl (omega arith)
