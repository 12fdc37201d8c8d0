-- ===== src/Tickets.antt =====
-- internal/oauthlogin/ticketguard.go: the tickets of a sign-in that have been used. The map is a list
-- of entries, one for a ticket at most.
pub mod Once
use yaadegar.Base.{String, Bool, true, false, not, ◌==◌, List, [], ◌∷◌, if◌then◌else◌, is_some}
use yaadegar.Base.Int.{leb_ℤ}
use yaadegar.Base.Table.{select_row, delete_where}
use yaadegar.Storage.{Time}

-- A used ticket, and the instant from which it can no longer be presented.
pub record Entry : Type 0 where
  pub jti : String
  pub exp : Time

abbrev pub InMemoryTicketGuard : Type 0
InMemoryTicketGuard = List Entry

-- The loop that forgets what has expired.
unfoldable pub evict : Time → InMemoryTicketGuard → InMemoryTicketGuard
evict now used = delete_where (λ e. leb_ℤ e.exp now) used

abbrev pub seen : String → InMemoryTicketGuard → Bool
seen jti used = is_some (select_row (λ e. e.jti == jti) used)

-- `Consume`, under the mutex: whether this call is the first, and the tickets after it.
unfoldable pub consume : Time → String → Time → InMemoryTicketGuard → Bool × InMemoryTicketGuard
unfolding evict
consume now jti exp used =
    let kept = evict now used in
    if seen jti kept then (false, kept) else (true, (record { jti = jti; exp = exp }) ∷ kept)

pub record Call : Type 0 where
  pub now : Time
  pub jti : String
  pub exp : Time

unfoldable pub consume_all : List Call → InMemoryTicketGuard → InMemoryTicketGuard
unfolding consume
consume_all [] used = used
consume_all (c ∷ cs) used = consume_all cs (consume c.now c.jti c.exp used).1
