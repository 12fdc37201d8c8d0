-- ===== src/Tickets/Once.antt =====
-- A ticket that is presented to `Consume` of internal/oauthlogin/ticketguard.go again.
use yaadegar.Base.{String, Bool, true, false, ◌==◌, ◌&&◌, ◌≡◌, refl, List, [], ◌∷◌, is_some, arith}
use yaadegar.Base.Int.{leb_ℤ, ◌<ℤ◌}
use yaadegar.Base.Table.{select_row, delete_where, All}
use yaadegar.Storage.{Time}
use yaadegar.Tickets.{Entry, InMemoryTicketGuard, Call, evict, seen, consume, consume_all}

-- The ticket is remembered, until `exp` at least.
abbrev kept_until : String → Time → Entry → Bool
kept_until jti exp e = e.jti == jti && leb_ℤ exp e.exp

abbrev Remembered : String → Time → InMemoryTicketGuard → Type 0
Remembered jti exp used = is_some (select_row (kept_until jti exp) used) ≡ true

evict-Remembered :
    (jti : String) (exp now : Time) (used : InMemoryTicketGuard)
    → now <ℤ exp
    → Remembered jti exp used
    → Remembered jti exp (evict now used)
unfolding evict select_row delete_where
evict-Remembered jti exp now [] before h = absurd (ground arith)
evict-Remembered jti exp now (e ∷ used) before h =
    ground (arith, evict-Remembered jti exp now used before)

consume-Remembered :
    (c : Call) (jti : String) (exp : Time) (used : InMemoryTicketGuard)
    → c.now <ℤ exp
    → Remembered jti exp used
    → Remembered jti exp (consume c.now c.jti c.exp used).1
unfolding consume select_row
consume-Remembered c jti exp used before h =
    let kept = evict-Remembered jti exp c.now used before h in ground arith

consume_all-Remembered :
    (cs : List Call) (jti : String) (exp : Time) (used : InMemoryTicketGuard)
    → All (λ c. c.now <ℤ exp) cs
    → Remembered jti exp used
    → Remembered jti exp (consume_all cs used)
unfolding consume_all
consume_all-Remembered [] jti exp used before h = h
consume_all-Remembered (c ∷ cs) jti exp used (first, rest) h =
    consume_all-Remembered cs jti exp (consume c.now c.jti c.exp used).1 rest
      (consume-Remembered c jti exp used first h)

Remembered-seen :
    (jti : String) (exp : Time) (used : InMemoryTicketGuard)
    → Remembered jti exp used
    → seen jti used ≡ true
unfolding select_row
Remembered-seen jti exp [] h = absurd (ground arith)
Remembered-seen jti exp (e ∷ used) h = ground (arith, Remembered-seen jti exp used)

consumed-Remembered :
    (now exp : Time) (jti : String) (used used' : InMemoryTicketGuard)
    → consume now jti exp used ≡ (true, used')
    → Remembered jti exp used'
unfolding consume select_row
consumed-Remembered now exp jti used used' h = ground arith

-- A ticket that was consumed cannot be consumed again before it expires, whatever tickets are consumed
-- in between, in whatever order the calls read the clock.
pub consume-once :
    (now exp exp' later : Time) (jti : String) (cs : List Call) (used used' : InMemoryTicketGuard)
    → consume now jti exp used ≡ (true, used')
    → All (λ c. c.now <ℤ exp) cs
    → later <ℤ exp
    → (consume later jti exp' (consume_all cs used')).0 ≡ false
unfolding consume
consume-once now exp exp' later jti cs used used' h between before =
    let after = consume_all cs used' in
    let kept = evict-Remembered jti exp later after before (
      consume_all-Remembered cs jti exp used' between
        (consumed-Remembered now exp jti used used' h)) in
    rw (Remembered-seen jti exp (evict later after) kept) refl
