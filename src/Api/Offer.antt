-- ===== src/Api/Offer.antt =====
-- internal/api/public.go, and the first half of `CreateReservation` and `CreateMyReservation`: what is
-- on offer behind a share link.
use yaadegar.Base.{
  ◌≡◌, arith, inl, inr, String, Bool, false, not, ◌||◌, ◌==◌, Option, none, some, if◌then◌else◌,
  is_some,
}
use yaadegar.Base.Int.{ltb_ℤ}
use yaadegar.Storage.{start_of_day, Result, Result-cases, ok, err, Time, GiftList, Item}
use yaadegar.Sqlstore.Db.{Db}
use yaadegar.Sqlstore.Lists
use yaadegar.Sqlstore.Items
use yaadegar.Api.{Reply, is_reserved, on_not_found}

passed : Option Time → Time → Bool
passed none now = false
passed (some date) now = ltb_ℤ date (start_of_day now)

unfoldable pub list_disabled : GiftList → Time → Bool
unfolding passed
list_disabled l now = not l.is_active || passed l.event_date now

abbrev pub archived : Item → Bool
archived it = is_some it.archived_at

-- What the lookups of a reserve come to: a refusal, or the list and its item.
pub data Offer : Type 0 where
  refused : Reply → Offer
  offered : GiftList → Item → Offer

abbrev pub item_gone : Reply
item_gone = Reply.problem 410 "this item is no longer available"

abbrev pub item_not_found : Reply
item_not_found = Reply.problem 404 "item not found"

offer_item : GiftList → Result Item → Offer
offer_item l (err e) = Offer.refused (on_not_found 404 "item not found" e)
offer_item l (ok it) =
    if not (it.list_id == l.id)
    then Offer.refused item_not_found
    else (if archived it then Offer.refused item_gone else Offer.offered l it)

offer_list : String → Time → String → Db → Result GiftList → Offer
unfolding offer_item
offer_list tenant now item_id db (err e) = Offer.refused (on_not_found 404 "list not found" e)
offer_list tenant now item_id db (ok l) =
    if list_disabled l now
    then Offer.refused (Reply.problem 410 "this list is no longer active")
    else offer_item l (Items.get tenant item_id db)

unfoldable pub offer : String → Time → String → String → Db → Offer
unfolding offer_list
offer tenant now slug item_id db =
    offer_list tenant now item_id db (Lists.get_by_slug tenant slug db)

-- No refusal is a reservation.
abbrev pub refused_reserved : Offer → Bool
refused_reserved (Offer.refused r) = is_reserved r
refused_reserved (Offer.offered l it) = false

pub refused_reserved-offer :
    (tenant : String) (now : Time) (slug item_id : String) (db : Db)
    → refused_reserved (offer tenant now slug item_id db) ≡ false
unfolding offer offer_list offer_item
refused_reserved-offer tenant now slug item_id db = ground arith

-- The item that a share link and an id stand for: the list of the link is active and its event is not
-- over, and the item is on the list and not archived.
pub record OnOffer (tenant : String) (now : Time) (slug item_id : String) (db : Db) (l : GiftList)
    (it : Item) : Type 0 where
  pub list_found : Lists.get_by_slug tenant slug db ≡ ok l
  pub enabled : list_disabled l now ≡ false
  pub item_found : Items.get tenant item_id db ≡ ok it
  pub on_list : it.list_id ≡ l.id
  pub in_use : is_some it.archived_at ≡ false

pub offer-OnOffer :
    (tenant slug item_id : String) (now : Time) (db : Db) (l : GiftList) (it : Item)
    → offer tenant now slug item_id db ≡ Offer.offered l it
    → OnOffer tenant now slug item_id db l it
unfolding offer offer_list offer_item
offer-OnOffer tenant slug item_id now db l it h =
    elim (Result-cases (Lists.get_by_slug tenant slug db)) [
      | inl (e, failed) ↦ absurd (ground arith)
      | inr (l', listed) ↦ elim (Result-cases (Items.get tenant item_id db)) [
        | inl (e, failed) ↦ absurd (ground arith)
        | inr (it', found) ↦ record {
          list_found = ground arith;
          enabled = ground arith;
          item_found = ground arith;
          on_list = ground arith;
          in_use = ground arith;
        }
      ]
    ]
