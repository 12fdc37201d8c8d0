-- ===== src/Storage/States.antt =====
-- internal/storage/types.go: the states that rows go through, and the tests on them. The zero value
-- "" of a Go string type is `unset`.
use yaadegar.Base.{Bool, true, false}

pub data ReservationState : Type 0 where
  unset pending_confirmation active reserver_notified expired : ReservationState

pub data ContributionStatus : Type 0 where
  unset pending matched confirmed declined withdrawn expired : ContributionStatus

pub data MatchState : Type 0 where
  unset proposed both_confirmed done declined expired : MatchState

pub data Visibility : Type 0 where
  unset public unlisted private : Visibility

pub data ReserverTier : Type 0 where
  unset full_guest email_confirmed registered : ReserverTier

pub data Availability : Type 0 where
  available reserved co_buying purchased : Availability

-- Go's `==` on these types.
unfoldable pub ReservationState-discrete : Discrete ReservationState
ReservationState-discrete = hlevel

unfoldable pub ContributionStatus-discrete : Discrete ContributionStatus
ContributionStatus-discrete = hlevel

unfoldable pub ReserverTier-discrete : Discrete ReserverTier
ReserverTier-discrete = hlevel

unfoldable pub MatchState-discrete : Discrete MatchState
MatchState-discrete = hlevel

-- `state != 'expired'`: a reservation that holds its item.
abbrev pub is_live : ReservationState → Bool
is_live ReservationState.expired = false
is_live _ = true

-- `status IN ('pending', 'matched', 'confirmed')`: a pledge that holds its item.
abbrev pub is_open : ContributionStatus → Bool
is_open ContributionStatus.pending = true
is_open ContributionStatus.matched = true
is_open ContributionStatus.confirmed = true
is_open _ = false
