-- ===== src/Tests.antt =====
-- Concrete rows and requests: each theorem with hypotheses applied where they hold, and runs of the
-- model that can be followed in the source.
mod Fixtures
mod Store
mod Matches
mod Cobuying
mod Pledging
mod Deciding
mod Owners
mod Signin
mod Network
mod Api
mod Limiter
mod Decay
