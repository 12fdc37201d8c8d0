-- ===== src/Tests/Fixtures.antt =====
-- A tenant with one list, two items and a few reservations.
use yaadegar.Base.{ℕ, ◌+◌, ◌*◌, true, false, [], ◌∷◌, none, some}
use yaadegar.Base.Int.{pos}
use yaadegar.Storage.{Time, GiftList, Item, Reservation, ReservationState, Visibility}
use yaadegar.Sqlstore.Db.{Db}
use yaadegar.World.{World}
use yaadegar.Base.{refl, string_discrete}
use yaadegar.Storage.{ReserverTier, Contribution, ContributionStatus, MatchState}
use yaadegar.Sqlstore.Db.{MatchRow}
use yaadegar.Sqlstore.Reservations.Moves.{Unique}
use yaadegar.Api.{Server, Runtime}
use yaadegar.Api.Reserve.{ReserveRequest}
use yaadegar.Decay.{Config, Env}

-- An instant some two thousand years after Go's zero time.
abbrev pub t0 : ℕ
t0 = 63_900_000_000_000_000_000

abbrev pub after_hours : ℕ → Time
after_hours h = pos (t0 + h * 3_600_000_000_000)

abbrev pub gifts : GiftList
gifts = record {
  id = "l1";
  tenant_id = "alice";
  owner_id = "u1";
  title = "Birthday";
  visibility = Visibility.unlisted;
  share_slug = "slug";
  event_date = none;
  decay_days = some (pos 7);
  reserver_tier = none;
  reserver_confirm_window_minutes = some (pos 30);
  allow_cobuy = true;
  thank_you_template = "";
  description = "";
  is_active = true;
  created_at = after_hours 0;
}

abbrev pub kettle : Item
kettle = record {
  id = "i1";
  tenant_id = "alice";
  list_id = "l1";
  name = "Kettle";
  url = none;
  image_url = none;
  price = some (record { amount_minor = pos 10000; currency = "EUR" });
  note = none;
  priority = pos 0;
  quantity_wanted = pos 2;
  allow_cobuy = none;
  thank_you_template = none;
  created_at = after_hours 0;
  archived_at = none;
}

abbrev pub shelved : Item
shelved = record kettle { id = "i2"; name = "Lamp"; archived_at = some (after_hours 1) }

abbrev pub held : Reservation
held = record {
  id = "r1";
  tenant_id = "alice";
  item_id = "i1";
  giver_name = none;
  giver_email = some "g@example.com";
  quantity = pos 1;
  token_hash = "h1";
  created_at = after_hours 0;
  last_activity_at = after_hours 0;
  is_group = false;
  state = ReservationState.active;
  state_at = after_hours 0;
  confirm_token_hash = "";
  email_confirmed_at = none;
  decay_release_token_hash = "";
  decay_keep_token_hash = "";
  reserver_user_id = none;
}

abbrev pub unconfirmed : Reservation
unconfirmed = record held {
  id = "r2";
  token_hash = "pending:r2";
  confirm_token_hash = "c2";
  state = ReservationState.pending_confirmation;
}

abbrev pub on_shelved : Reservation
on_shelved = record held { id = "r3"; item_id = "i2"; token_hash = "h3" }

abbrev pub db0 : Db
db0 = record {
  lists = gifts ∷ [];
  items = kettle ∷ shelved ∷ [];
  reservations = held ∷ unconfirmed ∷ on_shelved ∷ [];
  contributions = [];
  matches = [];
  match_contributions = [];
  list_owners = record { list_id = "l1"; user_id = "u1"; added_at = after_hours 0 } ∷ [];
}

abbrev pub world0 : World
world0 = record { db = db0; sent = [] }

abbrev pub config : Config
config = record {
  default_decay_days = pos 0;
  response_window = pos 172_800_000_000_000;
  confirm_window = pos 1_800_000_000_000;
  link_base = "https://example.com";
}

-- A pass nine days later; the mail server accepts everything.
abbrev pub env : Env
env = record {
  now = after_hours 216;
  keep_token = λ id. some ("k", "hk");
  release_token = λ id. some ("q", "hq");
  send = λ m. true;
}

pub distinct : Unique db0.reservations
unfolding string_discrete
distinct = ((refl, (refl, tt)), ((refl, tt), (tt, tt)))

abbrev pub server : Server
server = record {
  default_reserver_tier = ReserverTier.full_guest;
  reserver_confirm_window = pos 1_800_000_000_000;
  public_link_base = "https://example.com";
  captcha_enabled = false;
  cobuy_confirm_window = pos 86_400_000_000_000;
}

-- A mail server that takes everything, and strings left as they are.
abbrev pub runtime : Runtime
runtime = record {
  now = after_hours 3;
  new_id = "r9";
  new_match_id = "m9";
  new_slug = some "slug9";
  new_token = some ("raw9", "hash9");
  match_token = λ id. some ("act", "hash_act");
  hash = λ raw. "hash9";
  parses_address = λ s. true;
  verify_captcha = λ s. true;
  replace_all = λ s a b. s;
  split = λ s sep. s ∷ [];
  trim_space = λ s. s;
  to_lower = λ s. s;
  rune_count = λ s. 10;
  itoa = λ z. "30";
  format_instant = λ t. "soon";
  send = λ m. true;
}

-- The same with a mail server that takes nothing.
abbrev pub mute : Runtime
mute = record runtime { send = λ m. false }

-- A request for the kettle without a body.
abbrev pub ask_kettle : ReserveRequest
ask_kettle = record { share_slug = "slug"; item_id = "i1"; body = none }

-- Two pledges on the lamp, joined in a match, and no reservation on it.
abbrev pub pledge : Contribution
pledge = record {
  id = "c1";
  tenant_id = "alice";
  item_id = "i2";
  pledged = record { amount_minor = pos 4000; currency = "EUR" };
  giver_name = none;
  contact_email = "p@example.com";
  status = ContributionStatus.matched;
  match_id = some "m1";
  token_hash = "p1";
  match_action_token_hash = "a1";
  match_action_token_expires_at = none;
  created_at = after_hours 0;
}

abbrev pub confirmed_pledge : Contribution
confirmed_pledge = record pledge {
  id = "c2";
  token_hash = "p2";
  status = ContributionStatus.confirmed;
}

abbrev pub proposal : MatchRow
proposal = record {
  id = "m1";
  tenant_id = "alice";
  item_id = "i2";
  state = MatchState.proposed;
  created_at = after_hours 0;
}

abbrev pub db_pledged : Db
db_pledged = record db0 {
  reservations = held ∷ unconfirmed ∷ [];
  contributions = pledge ∷ confirmed_pledge ∷ [];
  matches = proposal ∷ [];
}
