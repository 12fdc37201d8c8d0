-- ===== src/Api/Pledge.antt =====
-- `CreateContribution` and `maybeProposeMatch` of internal/api/cobuying.go: a pledge, and the match
-- that is proposed when the pledges on an item cover its price.
pub mod Coverage
pub mod Proposed
pub mod Refused
pub mod Accepted
use yaadegar.Base.{
  ℕ, suc, zero, String, Bool, true, false, not, ◌==◌, ◌||◌, List, [], ◌∷◌, ◌++◌, Option, none, some,
  map, if◌then◌else◌, concat, ltb,
}
use yaadegar.Base.Int.{ℤ, pos, ltb_ℤ, leb_ℤ, ◌+ℤ◌}
use yaadegar.Base.Int64.{add64}
use yaadegar.Storage.{
  Result, ok, err, Error, other, not_found, cross_track_conflict, capacity_exceeded, Time,
  zero_time, Money, GiftList, Item, Contribution, ContributionStatus, Match, MatchState,
}
use yaadegar.Settings.{resolve}
use yaadegar.Email.{Message}
use yaadegar.Sqlstore.Db.{Db}
use yaadegar.Sqlstore.Contributions
use yaadegar.Sqlstore.Matches
use yaadegar.World.{
  World, Flow, Act, stop, value, give, stop_with, stop_if, query, write, change, ◌>>=◌, ◌>>◌,
}
use yaadegar.Api.{Server, Runtime, Reply, on_not_found}
use yaadegar.Api.Offer.{Offer, offer}
use yaadegar.Api.ThankYou.{send_or_forget}
use yaadegar.Api.Cobuying.{MatchView, to_gen_match}

pub record PledgeBody : Type 0 where
  pub pledged : Money
  pub giver_name : Option String
  pub contact_email : String

pub record PledgeRequest : Type 0 where
  pub share_slug : String
  pub item_id : String
  pub body : Option PledgeBody

-- A refusal, or 201 with the id of the pledge, its token and the match that it completed.
pub data PledgeReply : Type 0 where
  refused : Reply → PledgeReply
  created : String → String → Option MatchView → PledgeReply

abbrev pub is_pending : ContributionStatus → Bool
is_pending ContributionStatus.pending = true
is_pending _ = false

-- The pledges of the first loop, and the sum that it forms.
unfoldable pub pending_of : List Contribution → List Contribution
pending_of [] = []
pending_of (c ∷ cs) = let rest = pending_of cs in if is_pending c.status then c ∷ rest else rest

unfoldable pub covered : ℤ → List Contribution → ℤ
covered sum [] = sum
covered sum (c ∷ cs) = covered (add64 sum c.pledged.amount_minor) cs

-- `len(pending) < MinMatchContributions`
abbrev pub too_few : List Contribution → Bool
too_few (a ∷ b ∷ cs) = false
too_few _ = true

abbrev pub blank_match : Match
blank_match = record {
  id = "";
  tenant_id = "";
  item_id = "";
  state = MatchState.unset;
  contribution_ids = [];
  created_at = zero_time;
}

abbrev pub ids_of : List Contribution → List String
ids_of = map (λ c. c.id)

unfoldable pub expiry : Server → Runtime → Option Time
expiry s rt =
    if ltb_ℤ (pos 0) s.cobuy_confirm_window then some (rt.now +ℤ s.cobuy_confirm_window) else none

abbrev pub or_other : Option (String × String) → Db → Result (String × String)
or_other none db = err other
or_other (some t) db = ok t

-- The tokens are minted and stored one party after another; the links come back for the mail.
unfoldable pub set_tokens :
    Server
    → Runtime
    → String
    → String
    → List Contribution
    → Act Error (List (Contribution × String))
set_tokens s rt tenant match_id [] = give []
set_tokens s rt tenant match_id (c ∷ cs) = do
  let rest = set_tokens s rt tenant match_id cs
  (raw, hash) ← query (λ e. e) (or_other (rt.match_token c.id))
  write (λ e. e) (Contributions.set_match_action_token tenant c.id hash (expiry s rt))
  links ← rest
  give (
      (c, concat (concat (concat (concat s.public_link_base "/cobuy/") match_id) "?t=") raw)
      ∷ links)

match_message : Contribution → String → Message
match_message c link = record {
  to = c.contact_email;
  subject = "A co-buying match is proposed";
  body = record {
    title = "A co-buying match is proposed";
    intro = "A group gift you pledged toward is now fully funded." ∷ [];
    action = some (record { label = "Confirm or decline the group buy"; url = link });
    secondary = none;
    outro = [];
  };
}

unfoldable pub email_match : Runtime → List (Contribution × String) → World → World
unfolding match_message send_or_forget
email_match rt [] w = w
email_match rt ((c, link) ∷ cs) w = email_match rt cs (send_or_forget rt (match_message c link) w)

propose : Server → Runtime → String → String → List Contribution → Act Error (Option Match)
unfolding set_tokens email_match
propose s rt tenant item_id pending = do
  m ←
      write (λ e. e)
        (Matches.create tenant rt.new_match_id rt.now
          (record blank_match { item_id = item_id; contribution_ids = ids_of pending }))
  links ← set_tokens s rt tenant m.id pending
  change (email_match rt links)
  give (some m)

propose_over :
    Server → Runtime → String → Item → Money → List Contribution → Act Error (Option Match)
unfolding propose pending_of covered
propose_over s rt tenant it price all =
    let pending = pending_of all in
    if too_few pending || ltb_ℤ (covered (pos 0) pending) price.amount_minor
    then give none
    else propose s rt tenant it.id pending

unfoldable pub maybe_propose_match : Server → Runtime → String → Item → Act Error (Option Match)
unfolding propose_over
maybe_propose_match s rt tenant it w = elim it.price [
  | none ↦ (value none, w)
  | some price ↦
      (query (λ e. e) (Contributions.list_by_item tenant it.id)
          >>= propose_over s rt tenant it price)
        w
]

abbrev pub on_pledge_capacity : Error → Reply
on_pledge_capacity cross_track_conflict =
    Reply.problem 409 "this item is reserved and can't be co-bought"
on_pledge_capacity capacity_exceeded = Reply.problem 409 "this pledge would overfund the item"
on_pledge_capacity e = on_not_found 404 "item not found" e

abbrev pub resolve_allow_cobuy : Item → GiftList → Bool
resolve_allow_cobuy it l = resolve it.allow_cobuy l.allow_cobuy

unfoldable pub pledge_row : Item → PledgeBody → String → Contribution
pledge_row it b hash = record {
  id = "";
  tenant_id = "";
  item_id = it.id;
  pledged = b.pledged;
  giver_name = b.giver_name;
  contact_email = b.contact_email;
  status = ContributionStatus.unset;
  match_id = none;
  token_hash = hash;
  match_action_token_hash = "";
  match_action_token_expires_at = none;
  created_at = zero_time;
}

-- The checks of the body before anything is looked up.
unfoldable pub check_body : PledgeBody → Option Reply
check_body b =
    if leb_ℤ b.pledged.amount_minor (pos 0)
    then some (Reply.problem 400 "pledged amount must be positive")
    else (if b.contact_email == ""
        then some (Reply.problem 400 "contact_email is required")
        else none)

-- The checks of the item, whose price is passed on.
unfoldable pub check_item : GiftList → Item → PledgeBody → Flow Reply Money
check_item l it b = elim it.price [
  | none ↦ stop (Reply.problem 400 "this item has no price to co-buy toward")
  | some price ↦
      if not (resolve_allow_cobuy it l)
      then stop (Reply.problem 403 "co-buying is turned off for this item")
      else (if not (b.pledged.currency == price.currency)
          then stop (Reply.problem 400 "pledge currency must match the item price currency")
          else value price)
]

-- A failed proposal is logged, and what it wrote stays.
after_proposal : Contribution → String → Flow Error (Option Match) × World → PledgeReply × World
after_proposal c raw (stop e, w) = (PledgeReply.created c.id raw none, w)
after_proposal c raw (value none, w) = (PledgeReply.created c.id raw none, w)
after_proposal c raw (value (some m), w) =
    (PledgeReply.created c.id raw (some (to_gen_match m [])), w)

after_pledge :
    Server
    → Runtime
    → String
    → Item
    → String
    → World
    → Result (Contribution × Db)
    → PledgeReply × World
unfolding after_proposal
after_pledge s rt tenant it raw w (err e) = (PledgeReply.refused (on_pledge_capacity e), w)
after_pledge s rt tenant it raw w (ok (c, db)) =
    after_proposal c raw (maybe_propose_match s rt tenant it (record w { db = db }))

pledge_with :
    Server
    → Runtime
    → String
    → Item
    → PledgeBody
    → Money
    → Option (String × String)
    → World
    → PledgeReply × World
unfolding after_pledge pledge_row
pledge_with s rt tenant it b price none w = (PledgeReply.refused (Reply.failed other), w)
pledge_with s rt tenant it b price (some (raw, hash)) w = after_pledge s rt tenant it raw w (
    Contributions.create_within_capacity tenant rt.new_id rt.now (pledge_row it b hash)
      price.amount_minor w.db)

pledge_on : Server → Runtime → String → PledgeBody → Offer → World → PledgeReply × World
unfolding pledge_with
pledge_on s rt tenant b (Offer.refused r) w = (PledgeReply.refused r, w)
pledge_on s rt tenant b (Offer.offered l it) w = elim (check_item l it b) [
  | stop r ↦ (PledgeReply.refused r, w)
  | value price ↦ pledge_with s rt tenant it b price rt.new_token w
]

pledge_body :
    Server → Runtime → String → PledgeRequest → Option PledgeBody → World → PledgeReply × World
unfolding pledge_on
pledge_body s rt tenant req none w =
    (PledgeReply.refused (Reply.problem 400 "missing request body"), w)
pledge_body s rt tenant req (some b) w = elim (check_body b) [
  | some r ↦ (PledgeReply.refused r, w)
  | none ↦ pledge_on s rt tenant b (offer tenant rt.now req.share_slug req.item_id w.db) w
]

unfoldable pub create_contribution :
    Server → Runtime → Option String → PledgeRequest → World → PledgeReply × World
unfolding pledge_body
create_contribution s rt none req w = (PledgeReply.refused Reply.missing_context, w)
create_contribution s rt (some tenant) req w = pledge_body s rt tenant req req.body w
