-- ===== src/Api/Reveal/Mail.antt =====
-- The store while the mail of a completed match goes out.
use yaadegar.Base.{◌≡◌, refl, ◌∙◌, String, List, [], ◌∷◌}
use yaadegar.Storage.{Result, ok, err, Contribution, Item, GiftList}
use yaadegar.Sqlstore.Items
use yaadegar.Sqlstore.Lists
use yaadegar.World.{World}
use yaadegar.Api.{Runtime}
use yaadegar.Api.ThankYou.{send_or_forget-db, deliver_thank_you-db}
use yaadegar.Api.Reveal.{email_reveal, thank_each, thank_list, thank_item, send_cobuy_thank_you}

pub email_reveal-db :
    (rt : Runtime) (all cs : List Contribution) (w : World) → (email_reveal rt all cs w).db ≡ w.db
unfolding email_reveal
email_reveal-db rt all [] w = refl
email_reveal-db rt all (c ∷ cs) w = email_reveal-db rt all cs _ ∙ send_or_forget-db rt _ w

thank_each-db :
    (rt : Runtime) (it : Item) (l : GiftList) (cs : List Contribution) (w : World)
    → (thank_each rt it l cs w).db ≡ w.db
unfolding thank_each
thank_each-db rt it l [] w = refl
thank_each-db rt it l (c ∷ cs) w = thank_each-db rt it l cs _ ∙ deliver_thank_you-db rt it l _ _ w

thank_list-db :
    (rt : Runtime) (it : Item) (cs : List Contribution) (w : World) (r : Result GiftList)
    → (thank_list rt it cs w r).db ≡ w.db
unfolding thank_list
thank_list-db rt it cs w (err e) = refl
thank_list-db rt it cs w (ok l) = thank_each-db rt it l cs w

thank_item-db :
    (rt : Runtime) (tenant : String) (cs : List Contribution) (w : World) (r : Result Item)
    → (thank_item rt tenant cs w r).db ≡ w.db
unfolding thank_item
thank_item-db rt tenant cs w (err e) = refl
thank_item-db rt tenant cs w (ok it) = thank_list-db rt it cs w (Lists.get tenant it.list_id w.db)

pub send_cobuy_thank_you-db :
    (rt : Runtime) (tenant item_id : String) (cs : List Contribution) (w : World)
    → (send_cobuy_thank_you rt tenant item_id cs w).db ≡ w.db
unfolding send_cobuy_thank_you
send_cobuy_thank_you-db rt tenant item_id [] w = refl
send_cobuy_thank_you-db rt tenant item_id (c ∷ cs) w =
    thank_item-db rt tenant (c ∷ cs) w (Items.get tenant item_id w.db)
