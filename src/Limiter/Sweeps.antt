-- ===== src/Limiter/Sweeps.antt =====
-- The limiter of internal/auth/ratelimit.go against one that never forgets a window.
use yaadegar.Base.{
  String, true, false, ◌==◌, ◌≡◌, ◌⊎◌, inl, inr, refl, sym, ◌∙◌, List, [], ◌∷◌, Option, none, some,
  arith, Bool-cases,
}
use yaadegar.Base.Int.{ℤ, pos, ltb_ℤ, leb_ℤ, ◌≤ℤ◌}
use yaadegar.Base.Int64.{sub_time}
use yaadegar.Storage.{Time, Duration}
use yaadegar.Limiter.{
  FailureWindow, Entries, InMemoryLimiter, lapsed, allowed, allow, opened, live, put, sweep_locked,
  note_failure, record_failure, record_success,
}

pub data Event : Type 0 where
  fails : Time → String → Event
  succeeds : String → Event

-- The limiter after a sequence of events.
unfoldable pub runs : List Event → InMemoryLimiter → InMemoryLimiter
runs [] l = l
runs (Event.fails now key ∷ es) l = runs es (record_failure now key l)
runs (Event.succeeds key ∷ es) l = runs es (record_success key l)

-- The reference forgets a window only on a success.
unfoldable pub remembers : Duration → List Event → Entries → Entries
remembers window [] entries = entries
remembers window (Event.fails now key ∷ es) entries =
    remembers window es (note_failure window now key entries)
remembers window (Event.succeeds key ∷ es) entries = remembers window es (put key none entries)

-- The clock does not go back: the failures are in order, and none is after `now`.
abbrev pub Ordered : Time → List Event → Time → Type 0
Ordered start [] now = start ≤ℤ now
Ordered start (Event.fails at key ∷ es) now = (start ≤ℤ at) × Ordered at es now
Ordered start (Event.succeeds key ∷ es) now = Ordered start es now

-- What the limiter and the reference know of a key.
abbrev Agree : Time → Option FailureWindow → Option FailureWindow → Type 0
Agree now a b = (a ≡ b) ⊎ ((a ≡ none) × (lapsed now b ≡ true))

Agree-later : (t u : Time) (a b : Option FailureWindow) → t ≤ℤ u → Agree t a b → Agree u a b
Agree-later t u a b le (inl e) = inl e
Agree-later t u a none le (inr h) = inr (h.0, refl)
Agree-later t u a (some e) le (inr h) = inr (h.0, ground arith)

gone :
    (now : Time) (a b : Option FailureWindow)
    → lapsed now a ≡ true
    → Agree now a b
    → lapsed now b ≡ true
gone now a b e (inl p) = rw (sym p) e
gone now a b e (inr q) = q.1

Agree-live : (now : Time) (a b : Option FailureWindow) → Agree now a b → Agree now (live now a) b
Agree-live now a b h = elim (Bool-cases (lapsed now a)) [
  | inl e ↦ rw e (inr (refl, gone now a b e h))
  | inr e ↦ rw e h
]

Agree-opened :
    (window : Duration) (now : Time) (a b : Option FailureWindow)
    → Agree now a b
    → opened window now a ≡ opened window now b
Agree-opened window now a b (inl e) = rw e refl
Agree-opened window now a none (inr h) = rw h.0 refl
Agree-opened window now a (some e) (inr h) = rw (h.0, h.1) refl

Agree-allowed :
    (max : ℤ) (now : Time) (a b : Option FailureWindow)
    → Agree now a b
    → allowed max now a ≡ allowed max now b
Agree-allowed max now a b (inl e) = rw e refl
Agree-allowed max now a none (inr h) = rw h.0 refl
Agree-allowed max now a (some e) (inr h) = rw (h.0, h.1) refl

-- On every key.
abbrev Agrees : Time → Entries → Entries → Type 0
Agrees now f g = (k : String) → Agree now (f k) (g k)

put-Agrees :
    (now : Time) (key : String) (e : Option FailureWindow) (f g : Entries)
    → Agrees now f g
    → Agrees now (put key e f) (put key e g)
unfolding put
put-Agrees now key e f g h k = elim (Bool-cases (k == key)) [
  | inl same ↦ rw same (inl refl)
  | inr other ↦ rw other (h k)
]

sweep_locked-Agrees :
    (now : Time) (l : InMemoryLimiter) (g : Entries)
    → Agrees now l.entries g
    → Agrees now (sweep_locked now l).entries g
unfolding sweep_locked
sweep_locked-Agrees now l g h k = elim (Bool-cases (ltb_ℤ (sub_time now l.last_sweep) l.window)) [
  | inl e ↦ rw e (h k)
  | inr e ↦ rw e (Agree-live now (l.entries k) (g k) (h k))
]

sweep_locked-settings :
    (now : Time) (l : InMemoryLimiter)
    → ((sweep_locked now l).max_failures ≡ l.max_failures)
      × ((sweep_locked now l).window ≡ l.window)
unfolding sweep_locked
sweep_locked-settings now l = ground arith

note_failure-Agrees :
    (window : Duration) (now : Time) (key : String) (f g : Entries)
    → Agrees now f g
    → Agrees now (note_failure window now key f) (note_failure window now key g)
unfolding note_failure
note_failure-Agrees window now key f g h =
    rw (Agree-opened window now (f key) (g key) (h key)) (put-Agrees now key _ f g h)

record_failure_lem :
    (now : Time) (key : String) (l : InMemoryLimiter)
    → leb_ℤ l.max_failures (pos 0) ≡ false
    → record_failure now key l
      ≡ sweep_locked now (record l { entries = note_failure l.window now key l.entries })
unfolding record_failure
record_failure_lem now key l on = rw on refl

runs-Agrees :
    (es : List Event) (start now : Time) (l : InMemoryLimiter) (g : Entries) (max : ℤ)
    → (window : Duration) → leb_ℤ max (pos 0) ≡ false
    → l.max_failures ≡ max
    → l.window ≡ window
    → Ordered start es now
    → Agrees start l.entries g
    → Agrees now (runs es l).entries (remembers window es g) × ((runs es l).max_failures ≡ max)
unfolding runs remembers record_success
runs-Agrees [] start now l g max window on m w ord h =
    (λ k. Agree-later start now (l.entries k) (g k) ord (h k), m)
runs-Agrees (Event.succeeds key ∷ es) start now l g max window on m w ord h =
    runs-Agrees es start now (record_success key l) (put key none g) max window on m w ord
      (put-Agrees start key none l.entries g h)
runs-Agrees (Event.fails at key ∷ es) start now l g max window on m w ord h =
    let noted = record l { entries = note_failure l.window at key l.entries } in
    let same = record_failure_lem at key l (rw m on) in
    let kept = sweep_locked-settings at noted in
    let at_now : Agrees at l.entries g =
      λ k. Agree-later start at (l.entries k) (g k) ord.0 (h k) in
    let noted_agree : Agrees at noted.entries (note_failure window at key g) =
      rw (sym w) (note_failure-Agrees l.window at key l.entries g at_now) in
    rw (runs, same)
      (runs-Agrees es at now (sweep_locked at noted) (note_failure window at key g) max window on
        (kept.0 ∙ m) (kept.1 ∙ w) ord.1
        (sweep_locked-Agrees at noted (note_failure window at key g) noted_agree))

-- The sweep is invisible: after any failures and successes of any keys, the limiter permits an attempt
-- exactly when a limiter that never drops a window would, provided that the clock does not go back and
-- the limiter is not disabled.
pub allow-runs :
    (es : List Event) (start now : Time) (l : InMemoryLimiter) (key : String)
    → leb_ℤ l.max_failures (pos 0) ≡ false
    → Ordered start es now
    → allow (runs es l) now key ≡ allowed l.max_failures now (remembers l.window es l.entries key)
unfolding allow
allow-runs es start now l key on ord =
    let both =
      runs-Agrees es start now l l.entries l.max_failures l.window on refl refl ord
        (λ k. inl refl) in
    rw (both.1, on) (Agree-allowed l.max_failures now _ _ (both.0 key))
