-- ===== src/Api/Pledge/Refused.antt =====
-- What a refusal of `CreateContribution` of internal/api/cobuying.go leaves.
use yaadegar.Base.{String, ◌≡◌, Option, none, some, arith, Option-cases, inl, inr}
use yaadegar.Storage.{Item, Money}
use yaadegar.World.{World}
use yaadegar.Api.{Server, Runtime, Reply}
use yaadegar.Api.Offer.{Offer, offer}
use yaadegar.Api.Pledge.{
  PledgeBody, PledgeRequest, PledgeReply, create_contribution, pledge_body, pledge_on, pledge_with,
  after_pledge, after_proposal,
}

pledge_with-refused :
    (s : Server) (rt : Runtime) (tenant : String) (it : Item) (b : PledgeBody) (price : Money)
    (t : Option (String × String)) (w w' : World) (r : Reply)
    → pledge_with s rt tenant it b price t w ≡ (PledgeReply.refused r, w')
    → w' ≡ w
unfolding pledge_with after_pledge after_proposal
pledge_with-refused s rt tenant it b price t w w' r h = ground arith

pledge_on-refused :
    (s : Server) (rt : Runtime) (tenant : String) (b : PledgeBody) (o : Offer) (w w' : World)
    (r : Reply)
    → pledge_on s rt tenant b o w ≡ (PledgeReply.refused r, w')
    → w' ≡ w
unfolding pledge_on
pledge_on-refused s rt tenant b (Offer.refused x) w w' r h = ground arith
pledge_on-refused s rt tenant b (Offer.offered l it) w w' r h =
    ground
      (arith, λ (price : Money). pledge_with-refused s rt tenant it b price rt.new_token w w' r)

-- A pledge that is refused leaves the store as it was, and sends no mail.
pub create_contribution-refused :
    (s : Server) (rt : Runtime) (tenant : Option String) (req : PledgeRequest) (w w' : World)
    (r : Reply)
    → create_contribution s rt tenant req w ≡ (PledgeReply.refused r, w')
    → w' ≡ w
unfolding create_contribution pledge_body
create_contribution-refused s rt none req w w' r h = ground arith
create_contribution-refused s rt (some tenant) req w w' r h = elim (Option-cases req.body) [
  | inl e ↦ ground arith
  | inr (b, e) ↦
      let o = offer tenant rt.now req.share_slug req.item_id w.db in
      ground (arith, pledge_on-refused s rt tenant b o w w' r)
]
