-- ===== src/Api.antt =====
-- internal/api: the handlers of the giver's surface. A handler is a function from the world to its
-- reply and the new world; `none` for the tenant is a request that the tenant middleware let through
-- without a store.
pub mod Offer
pub mod ThankYou
pub mod Deadline
pub mod Reserve
pub mod Confirm
pub mod Release
pub mod Account
pub mod Cobuying
pub mod Pledge
pub mod Dissolve
pub mod Reveal
pub mod Decide
pub mod Owned
pub mod Lists
pub mod Items
pub mod Archive
pub mod ClientIp
pub mod Recovery
use yaadegar.Base.{true, false, ℕ, String, Bool, Option, none, some, List}
use yaadegar.Base.Int.{ℤ}
use yaadegar.Storage.{Result, ok, err, Error, not_found, Time, Duration, ReserverTier}
use yaadegar.Email.{Message}
use yaadegar.World.{World, Act, stop, value}

-- The part of `Server` that the handlers read.
pub record Server : Type 0 where
  pub default_reserver_tier : ReserverTier
  pub reserver_confirm_window : Duration
  pub public_link_base : String
  pub captcha_enabled : Bool
  pub cobuy_confirm_window : Duration

-- What a request takes from outside: the clock, `uuid.NewString` for a row and for a match, the random slug of a list, `token.New`
-- (raw value and hash, or a failure of the random source) for the request and for each party of a
-- match, the hash of a token, the checks of an address and of a captcha,
-- the functions of `strings`, `strconv`, `utf8` and `time`, and whether the mail server takes a message.
pub record Runtime : Type 0 where
  pub now : Time
  pub new_id : String
  pub new_match_id : String
  pub new_slug : Option String
  pub new_token : Option (String × String)
  pub match_token : String → Option (String × String)
  pub hash : String → String
  pub parses_address : String → Bool
  pub verify_captcha : String → Bool
  pub replace_all : String → String → String → String
  pub split : String → String → List String
  pub trim_space : String → String
  pub to_lower : String → String
  pub rune_count : String → ℕ
  pub itoa : ℤ → String
  pub format_instant : Time → String
  pub send : Message → Bool

-- A response, or the error of a handler that returns none.
pub data Reply : Type 0 where
  -- `errMissingContext`
  missing_context : Reply
  failed : Error → Reply
  problem : ℕ → String → Reply
  -- 201, with the capability token where one is issued
  reserved : String → Option String → Reply
  -- 202, with the deadline and its rendering
  pending : String → Option Time → Option String → Reply
  -- 200, with the capability token where it is issued now
  confirmed : String → Option String → Reply
  -- 204
  no_content : Reply

abbrev pub Handler : Type 0
Handler = World → Reply × World

-- A reply that leaves the world as it is.
abbrev pub reply : Reply → Handler
reply r w = (r, w)

abbrev pub with_tenant : Option String → (String → Handler) → Handler
with_tenant none fn w = (Reply.missing_context, w)
with_tenant (some tenant) fn w = fn tenant w

-- `if errors.Is(err, storage.ErrNotFound) { return 404 }; return nil, err`, where the status is 401
-- for a capability token.
abbrev pub on_not_found : ℕ → String → Error → Reply
on_not_found status detail not_found = Reply.problem status detail
on_not_found status detail e = Reply.failed e

-- The replies that a lookup does not give.
abbrev pub is_reserved : Reply → Bool
is_reserved (Reply.reserved id tok) = true
is_reserved _ = false

-- A handler that is an action: what it stops with is its reply.
abbrev pub respond : Act Reply Reply → Handler
respond m w = let (r, w') = m w in elim r [ stop e ↦ (e, w') | value a ↦ (a, w') ]
