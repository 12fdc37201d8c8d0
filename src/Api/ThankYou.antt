-- ===== src/Api/ThankYou.antt =====
-- `sendThankYou` and `deliverThankYou` of internal/api/reservations.go: the owner's note to a giver.
use yaadegar.Base.{String, ◌==◌, ◌≡◌, arith, List, [], ◌∷◌, ◌++◌, none, some, if◌then◌else◌}
use yaadegar.Storage.{Result, ok, err, GiftList, Item, Reservation}
use yaadegar.Settings.{resolve}
use yaadegar.Email.{Message}
use yaadegar.Sqlstore.Lists
use yaadegar.Sqlstore.Items
use yaadegar.World.{World}
use yaadegar.Api.{Runtime}

abbrev pub resolve_thank_you : Item → GiftList → String
resolve_thank_you it l = resolve it.thank_you_template l.thank_you_template

abbrev pub render_thank_you : Runtime → String → String → String
render_thank_you rt tmpl item_name = rt.replace_all tmpl "{item}" item_name

-- `email.Paragraphs`
keep_paragraphs : Runtime → List String → List String
keep_paragraphs rt [] = []
keep_paragraphs rt (p ∷ ps) =
    let rest = keep_paragraphs rt ps in
    let trimmed = rt.trim_space p in if trimmed == "" then rest else trimmed ∷ rest

unfoldable pub paragraphs : Runtime → String → List String
unfolding keep_paragraphs
paragraphs rt s = keep_paragraphs rt (rt.split (rt.replace_all s "\r\n" "\n") "\n\n")

pub record ThankYouSubject : Type 0 where
  pub with_item : String
  pub no_item : String

abbrev pub reserve_thank_you_subject : ThankYouSubject
reserve_thank_you_subject = record {
  with_item = "Thank you for reserving {item}";
  no_item = "Thank you for your reservation";
}

note : Runtime → Item → String → String → String → Message
note rt it tmpl to subject = record {
  to = to;
  subject = subject;
  body = record {
    title = subject;
    intro = paragraphs rt (render_thank_you rt tmpl it.name);
    action = none;
    secondary = none;
    outro = [];
  };
}

-- A message that the server does not take is logged and forgotten.
unfoldable pub send_or_forget : Runtime → Message → World → World
send_or_forget rt m w = if rt.send m then record w { sent = w.sent ++ m ∷ [] } else w

pub send_or_forget-db : (rt : Runtime) (m : Message) (w : World) → (send_or_forget rt m w).db ≡ w.db
unfolding send_or_forget
send_or_forget-db rt m w = ground arith

unfoldable pub deliver_thank_you :
    Runtime → Item → GiftList → String → ThankYouSubject → World → World
unfolding note send_or_forget
deliver_thank_you rt it l recipient subj w =
    let tmpl = resolve_thank_you it l in
    let subject =
      if it.name == "" then subj.no_item else render_thank_you rt subj.with_item it.name in
    if recipient == ""
    then w
    else (if tmpl == "" then w else send_or_forget rt (note rt it tmpl recipient subject) w)

pub deliver_thank_you-db :
    (rt : Runtime) (it : Item) (l : GiftList) (to : String) (subj : ThankYouSubject) (w : World)
    → (deliver_thank_you rt it l to subj w).db ≡ w.db
unfolding deliver_thank_you send_or_forget
deliver_thank_you-db rt it l to subj w = ground arith

thank_on : Runtime → Item → String → World → Result GiftList → World
thank_on rt it to w (err e) = w
thank_on rt it to w (ok l) = deliver_thank_you rt it l to reserve_thank_you_subject w

thank_for : Runtime → String → String → World → Result Item → World
unfolding thank_on
thank_for rt tenant to w (err e) = w
thank_for rt tenant to w (ok it) = thank_on rt it to w (Lists.get tenant it.list_id w.db)

unfoldable pub send_thank_you : Runtime → String → Reservation → World → World
unfolding thank_for
send_thank_you rt tenant res w = elim res.giver_email [
  | none ↦ w
  | some to ↦ if to == "" then w else thank_for rt tenant to w (Items.get tenant res.item_id w.db)
]

-- A note touches no row.
pub send_thank_you-db :
    (rt : Runtime) (tenant : String) (res : Reservation) (w : World)
    → (send_thank_you rt tenant res w).db ≡ w.db
unfolding send_thank_you thank_for thank_on deliver_thank_you send_or_forget
send_thank_you-db rt tenant res w = ground arith
