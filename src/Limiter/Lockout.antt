-- ===== src/Limiter/Lockout.antt =====
-- How many failures the limiter of internal/auth/ratelimit.go lets through in one window.
use yaadegar.Base.{
  ℕ, suc, ◌+◌, ◌-◌, ◌^◌, ◌≤◌, String, false, ◌≡◌, refl, ◌∙◌, ap, List, [], ◌∷◌, none, some, arith,
}
use yaadegar.Base.Int.{pos, ltb_ℤ, leb_ℤ, ◌≤ℤ◌, ◌+ℤ◌}
use yaadegar.Base.Int64.{add64, add64_exact}
use yaadegar.Base.Table.{All}
use yaadegar.Storage.{Time, Duration}
use yaadegar.Limiter.{Entries, InMemoryLimiter, allow, put, note_failure}
use yaadegar.Limiter.Sweeps.{Event, runs, remembers, Ordered, allow-runs}

abbrev pub length : List Time → ℕ
length [] = 0
length (t ∷ ts) = suc (length ts)

-- Failures of one key.
abbrev pub failures_of : String → List Time → List Event
failures_of key [] = []
failures_of key (t ∷ ts) = Event.fails t key ∷ failures_of key ts

add64_one : (n : ℕ) → suc n ≤ 2 ^ 63 - 1 → add64 (pos n) (pos 1) ≡ pos (suc n)
unfolding ◌+ℤ◌
add64_one n h = add64_exact (pos n) (pos 1) (ground arith) ∙ ground arith

note_failure-active :
    (window : Duration) (t : Time) (key : String) (entries : Entries) (n : ℕ) (end : Time)
    → entries key ≡ some (record { failures = pos n; window_end = end })
    → t ≤ℤ end
    → suc n ≤ 2 ^ 63 - 1
    → note_failure window t key entries key
      ≡ some (record { failures = pos (suc n); window_end = end })
unfolding note_failure put
note_failure-active window t key entries n end found le fits =
    let not_lapsed : ltb_ℤ end t ≡ false = ground arith in
    rw (found, not_lapsed, add64_one n fits) (ground arith)

remembers_failures :
    (window : Duration) (key : String) (ts : List Time) (entries : Entries) (n : ℕ) (end : Time)
    → entries key ≡ some (record { failures = pos n; window_end = end })
    → All (λ t. t ≤ℤ end) ts
    → n + length ts ≤ 2 ^ 63 - 1
    → remembers window (failures_of key ts) entries key
      ≡ some (record { failures = pos (n + length ts); window_end = end })
unfolding remembers
remembers_failures window key [] entries n end found le fits = rw found (ground arith)
remembers_failures window key (t ∷ ts) entries n end found le fits =
    let noted = note_failure-active window t key entries n end found le.0 (omega arith) in
    remembers_failures window key ts (note_failure window t key entries) (suc n) end noted le.1
      (omega arith)
    ∙ ap (λ k. some (record { failures = pos k; window_end = end })) (omega arith)

first_failure :
    (window : Duration) (t : Time) (key : String) (entries : Entries)
    → entries key ≡ none
    → note_failure window t key entries key
      ≡ some (record { failures = pos 1; window_end = t +ℤ window })
unfolding note_failure put
first_failure window t key entries fresh = rw (fresh, add64_one 0 (omega arith)) (ground arith)

-- A key with no window that fails at `t`, and then at `ts` before the window that `t` opens is over,
-- is permitted another attempt within the window exactly as long as it failed fewer times than the
-- limit, provided that the clock does not go back and the limiter is not disabled.
pub allow-failures :
    (l : InMemoryLimiter) (key : String) (t : Time) (ts : List Time) (now : Time)
    → leb_ℤ l.max_failures (pos 0) ≡ false
    → l.entries key ≡ none
    → Ordered t (failures_of key (t ∷ ts)) now
    → All (λ u. u ≤ℤ t +ℤ l.window) ts
    → now ≤ℤ t +ℤ l.window
    → 1 + length ts ≤ 2 ^ 63 - 1
    → allow (runs (failures_of key (t ∷ ts)) l) now key ≡ ltb_ℤ (pos (1 + length ts)) l.max_failures
unfolding remembers
allow-failures l key t ts now on fresh ord within le fits =
    let first = first_failure l.window t key l.entries fresh in
    let end = t +ℤ l.window in
    let after =
      remembers_failures l.window key ts (note_failure l.window t key l.entries) 1 end first within
        fits in
    let not_lapsed : ltb_ℤ end now ≡ false = ground arith in
    allow-runs (failures_of key (t ∷ ts)) t now l key on ord ∙ rw (after, not_lapsed) refl
