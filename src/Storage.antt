-- ===== src/Storage.antt =====
-- internal/storage/types.go and internal/storage/storage.go: the rows of the store, the states they
-- go through, and the errors of the repositories.
--
-- Identifiers, hashes and e-mail addresses are strings; a pointer that may be nil is an `Option`.
-- A `time.Time` is the number of nanoseconds since Go's zero time, so `IsZero` is a test against 0,
-- and a `time.Duration` a number of nanoseconds. The zero value "" of a state is `unset`.
mod States
unfoldable pub use States.*
use yaadegar.Base.{
  ◌*◌, ◌/◌, ◌+◌, ◌≡◌, refl, ◌⊎◌, inl, inr, ℕ, zero, String, Bool, true, false, Option, none, some,
  List,
}
use yaadegar.Base.Int.{ℤ, pos, negsuc}

abbrev pub Time : Type 0
Time = ℤ

abbrev pub Duration : Type 0
Duration = ℤ

abbrev pub zero_time : Time
zero_time = pos 0

abbrev pub is_zero_time : Time → Bool
is_zero_time (pos zero) = true
is_zero_time _ = false

-- Midnight UTC: the zero time is a midnight, and a day has 24 hours of 60 minutes of 60 seconds.
unfoldable pub start_of_day : Time → Time
start_of_day (pos n) = pos (n / 86_400_000_000_000 * 86_400_000_000_000)
start_of_day (negsuc n) = negsuc (n / 86_400_000_000_000 * 86_400_000_000_000 + 86_399_999_999_999)

abbrev pub minute : Duration
minute = pos 60_000_000_000

abbrev pub hour : Duration
hour = pos 3_600_000_000_000

pub data Error : Type 0 where
  not_found conflict capacity_exceeded cross_track_conflict invalid_list_title other : Error

-- The account of a request, and its role in the tenant.
pub data UserRole : Type 0 where
  owner giver : UserRole

pub record Account : Type 0 where
  pub id : String
  pub role : UserRole

-- A value with its error, of which Go returns both.
pub data Result {ℓ} (T : Type ℓ) : Type ℓ where
  err : Error → Result T
  ok : T → Result T

-- `if err != nil { return err }` between two statements.
infixl 5 ◌>>=◌ ◌>>◌
abbrev pub ◌>>=◌ {ℓ κ} : {T : Type ℓ} {U : Type κ} → Result T → (T → Result U) → Result U
err e >>= next = err e
ok x >>= next = next x

abbrev pub ◌>>◌ {ℓ} : {U : Type ℓ} → Result (Unit {0}) → Result U → Result U
err e >> next = err e
ok _ >> next = next

-- `if bad { return e }`
abbrev pub refuse : Bool → Error → Result (Unit {0})
refuse true e = err e
refuse false e = ok tt

-- A missing row is ErrNotFound (`sql.ErrNoRows`).
abbrev pub or_not_found {ℓ} : {A : Type ℓ} → Option A → Result A
or_not_found none = err not_found
or_not_found (some a) = ok a

pub Result-cases {ℓ} :
    {A : Type ℓ} (r : Result A) → ((e : Error) × (r ≡ err e)) ⊎ ((a : A) × (r ≡ ok a))
Result-cases (err e) = inl (e, refl)
Result-cases (ok a) = inr (a, refl)

pub record Money : Type 0 where
  pub amount_minor : ℤ
  pub currency : String

pub record GiftList : Type 0 where
  pub id : String
  pub tenant_id : String
  pub owner_id : String
  pub title : String
  pub visibility : Visibility
  pub share_slug : String
  pub event_date : Option Time
  pub decay_days : Option ℤ
  pub reserver_tier : Option ReserverTier
  pub reserver_confirm_window_minutes : Option ℤ
  pub allow_cobuy : Bool
  pub thank_you_template : String
  pub description : String
  pub is_active : Bool
  pub created_at : Time

pub record Item : Type 0 where
  pub id : String
  pub tenant_id : String
  pub list_id : String
  pub name : String
  pub url : Option String
  pub image_url : Option String
  pub price : Option Money
  pub note : Option String
  pub priority : ℤ
  pub quantity_wanted : ℤ
  pub allow_cobuy : Option Bool
  pub thank_you_template : Option String
  pub created_at : Time
  pub archived_at : Option Time

pub record Reservation : Type 0 where
  pub id : String
  pub tenant_id : String
  pub item_id : String
  pub giver_name : Option String
  pub giver_email : Option String
  pub quantity : ℤ
  pub token_hash : String
  pub created_at : Time
  pub last_activity_at : Time
  pub is_group : Bool
  pub state : ReservationState
  pub state_at : Time
  pub confirm_token_hash : String
  pub email_confirmed_at : Option Time
  pub decay_release_token_hash : String
  pub decay_keep_token_hash : String
  pub reserver_user_id : Option String

pub record DecayCandidate : Type 0 where
  pub tenant_id : String
  pub reservation_id : String
  pub item_id : String
  pub item_name : String
  pub giver_email : Option String
  pub state : ReservationState
  pub last_activity_at : Time
  pub state_at : Time
  pub decay_days : Option ℤ
  pub reserver_confirm_window_minutes : Option ℤ

pub record Contribution : Type 0 where
  pub id : String
  pub tenant_id : String
  pub item_id : String
  pub pledged : Money
  pub giver_name : Option String
  pub contact_email : String
  pub status : ContributionStatus
  pub match_id : Option String
  pub token_hash : String
  pub match_action_token_hash : String
  pub match_action_token_expires_at : Option Time
  pub created_at : Time

pub record Match : Type 0 where
  pub id : String
  pub tenant_id : String
  pub item_id : String
  pub state : MatchState
  pub contribution_ids : List String
  pub created_at : Time

pub record MatchExpiryCandidate : Type 0 where
  pub tenant_id : String
  pub match_id : String
  pub item_id : String
  pub created_at : Time
