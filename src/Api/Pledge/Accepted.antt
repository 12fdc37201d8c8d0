-- ===== src/Api/Pledge/Accepted.antt =====
-- What `CreateContribution` of internal/api/cobuying.go accepts.
use yaadegar.Base.{
  String, true, false, ◌==◌, ◌⊎◌, ◌≡◌, refl, Option, none, some, arith, Option-cases, inl, inr,
}
use yaadegar.Base.Int.{pos, ◌<ℤ◌, ◌≤ℤ◌}
use yaadegar.Base.Int64.{add64}
use yaadegar.Storage.{Result-cases, ok, Contribution, Item, GiftList, Money}
use yaadegar.Sqlstore.Db.{Db}
use yaadegar.Sqlstore.Contributions
use yaadegar.Sqlstore.Capacity.Pledges.{funded, pledge-checks}
use yaadegar.Sqlstore.Exclusive.{live_count, pledge_ok}
use yaadegar.World.{World, Flow, stop, value}
use yaadegar.Api.{Server, Runtime, Reply}
use yaadegar.Api.Offer.{Offer, offer, OnOffer, offer-OnOffer}
use yaadegar.Api.Cobuying.{MatchView}
use yaadegar.Api.Pledge.{
  PledgeBody, PledgeRequest, PledgeReply, create_contribution, pledge_body, pledge_on, pledge_with,
  pledge_row, after_pledge, after_proposal, check_item, check_body, resolve_allow_cobuy,
}

-- What makes an item one that a pledge can go to.
pub record Fundable (l : GiftList) (it : Item) (b : PledgeBody) (price : Money) : Type 0 where
  pub priced : it.price ≡ some price
  pub permitted : resolve_allow_cobuy it l ≡ true
  pub same_currency : b.pledged.currency ≡ price.currency

check_item-Fundable :
    (l : GiftList) (it : Item) (b : PledgeBody) (price : Money)
    → check_item l it b ≡ value price
    → Fundable l it b price
unfolding check_item
check_item-Fundable l it b price h = record {
  priced = ground arith;
  permitted = ground arith;
  same_currency = ground arith;
}

check_body-positive :
    (b : PledgeBody)
    → check_body b ≡ none
    → (pos 0 <ℤ b.pledged.amount_minor) × ((b.contact_email == "") ≡ false)
unfolding check_body
check_body-positive b h = ground arith

abbrev pub IsMade : Runtime → String → Item → PledgeBody → Money → String → String → Db → Type 0
IsMade rt tenant it b price id raw db =
    (hash : String) × (c : Contribution) × (db' : Db) × (rt.new_token ≡ some (raw, hash))
    × (Contributions.create_within_capacity tenant rt.new_id rt.now (pledge_row it b hash)
          price.amount_minor db
        ≡ ok (c, db'))
    × (id ≡ c.id)
    × (add64 (funded tenant it.id db) b.pledged.amount_minor ≤ℤ price.amount_minor)
    × (live_count tenant it.id db ≡ 0)

-- What the guarded insert found: the item is not reserved, and the sum that the code forms is within
-- the price.
made-within :
    (rt : Runtime) (tenant : String) (it : Item) (b : PledgeBody) (price : Money) (hash : String)
    (c : Contribution) (db db' : Db)
    → Contributions.create_within_capacity tenant rt.new_id rt.now
        (pledge_row it b hash)
        price.amount_minor
        db
      ≡ ok (c, db')
    → (add64 (funded tenant it.id db) b.pledged.amount_minor ≤ℤ price.amount_minor)
      × (live_count tenant it.id db ≡ 0)
unfolding pledge_row Contributions.prep
made-within rt tenant it b price hash c db db' h =
    let checks =
      pledge-checks tenant rt.new_id rt.now (pledge_row it b hash) c price.amount_minor db db' h in
    let free =
      pledge_ok tenant rt.new_id rt.now (pledge_row it b hash) c price.amount_minor db db' h in
    ground (arith, checks.0, checks.1, free.1)

with-IsMade :
    (s : Server) (rt : Runtime) (tenant : String) (it : Item) (b : PledgeBody) (price : Money)
    (w w' : World) (id raw : String) (m : Option MatchView)
    → pledge_with s rt tenant it b price rt.new_token w ≡ (PledgeReply.created id raw m, w')
    → IsMade rt tenant it b price id raw w.db
unfolding pledge_with after_pledge after_proposal
with-IsMade s rt tenant it b price w w' id raw m h = elim (Option-cases rt.new_token) [
  | inl e ↦ absurd (ground arith)
  | inr ((raw', hash), e) ↦
      let made =
        Contributions.create_within_capacity tenant rt.new_id rt.now (pledge_row it b hash)
          price.amount_minor w.db in
      elim (Result-cases made) [
        | inl (f, failed) ↦ absurd (ground arith)
        | inr ((c, db'), done) ↦
            let within = made-within rt tenant it b price hash c w.db db' done in
            (hash, c, db', ground arith, done, ground arith, within.0, within.1)
      ]
]

Check-cases :
    (f : Flow Reply Money) → ((r : Reply) × (f ≡ stop r)) ⊎ ((price : Money) × (f ≡ value price))
Check-cases (stop r) = inl (r, refl)
Check-cases (value price) = inr (price, refl)

on-IsMade :
    (s : Server) (rt : Runtime) (tenant : String) (b : PledgeBody) (o : Offer) (w w' : World)
    (id raw : String) (m : Option MatchView)
    → pledge_on s rt tenant b o w ≡ (PledgeReply.created id raw m, w')
    → (l : GiftList) × (it : Item) × (price : Money) × (o ≡ Offer.offered l it)
      × Fundable l it b price
      × IsMade rt tenant it b price id raw w.db
unfolding pledge_on
on-IsMade s rt tenant b (Offer.refused x) w w' id raw m h = absurd (ground arith)
on-IsMade s rt tenant b (Offer.offered l it) w w' id raw m h =
    elim (Check-cases (check_item l it b)) [
      | inl (x, failed) ↦ absurd (ground arith)
      | inr (price, checked) ↦
          let made = with-IsMade s rt tenant it b price w w' id raw m (ground arith) in
          (l, it, price, refl, check_item-Fundable l it b price checked, made)
    ]

-- A pledge that is accepted is of a positive amount, comes with an address to write to, and goes to an
-- item on offer behind the share link that has a price, in the currency of the price, where the owner
-- permits co-buying, and that nobody has reserved. The int64 sum of the open pledges and the amount,
-- which wraps around, is at most the price. The id and the token of the answer are those of the row
-- that the store made.
pub create_contribution-accepts :
    (s : Server) (rt : Runtime) (tenant : String) (req : PledgeRequest) (w w' : World)
    (id raw : String) (m : Option MatchView)
    → create_contribution s rt (some tenant) req w ≡ (PledgeReply.created id raw m, w')
    → (b : PledgeBody) × (req.body ≡ some b)
      × ((pos 0 <ℤ b.pledged.amount_minor) × ((b.contact_email == "") ≡ false))
      × ((l : GiftList) × (it : Item) × (price : Money) × OnOffer tenant rt.now req.share_slug
            req.item_id w.db l it
          × Fundable l it b price
          × IsMade rt tenant it b price id raw w.db)
unfolding create_contribution pledge_body
create_contribution-accepts s rt tenant req w w' id raw m h = elim (Option-cases req.body) [
  | inl e ↦ absurd (ground arith)
  | inr (b, e) ↦ elim (Option-cases (check_body b)) [
    | inl good ↦
        let o = offer tenant rt.now req.share_slug req.item_id w.db in
        let (l, it, price, found, fundable, made) =
          on-IsMade s rt tenant b o w w' id raw m (ground arith) in
        let listed = offer-OnOffer tenant req.share_slug req.item_id rt.now w.db l it found in
        (b, e, check_body-positive b good, (l, it, price, listed, fundable, made))
    | inr (r, bad) ↦ absurd (ground arith)
  ]
]
