-- ===== src/Api/Reveal.antt =====
-- `emailReveal` and `sendCobuyThankYou` of internal/api/cobuying.go: the mail of a completed match.
pub mod Mail
use yaadegar.Base.{
  String, Bool, true, false, not, ◌==◌, List, [], ◌∷◌, ◌++◌, Option, none, some, map, if◌then◌else◌,
  concat,
}
use yaadegar.Storage.{
  Result, ok, err, Error, not_found, Time, Contribution, ContributionStatus, Item, GiftList, Match,
  MatchState,
}
use yaadegar.Email.{Message}
use yaadegar.Sqlstore.Db.{Db}
use yaadegar.Sqlstore.Contributions
use yaadegar.Sqlstore.Matches
use yaadegar.Sqlstore.Matches.{Confirmed}
use yaadegar.Sqlstore.Items
use yaadegar.Sqlstore.Lists
use yaadegar.World.{
  World, Flow, Act, stop, value, give, stop_with, stop_if, query, write, change, recast, ◌>>=◌,
  ◌>>◌,
}
use yaadegar.Api.{Server, Runtime, Reply, Handler, on_not_found, respond}
use yaadegar.Api.ThankYou.{ThankYouSubject, deliver_thank_you, send_or_forget}
use yaadegar.Api.Cobuying.{Actor, MatchView, MatchReply, resolve_match_actor, to_gen_match}

-- `strings.Join`
abbrev pub join : String → List String → String
join sep [] = ""
join sep (s ∷ []) = s
join sep (s ∷ t ∷ ss) = concat (concat s sep) (join sep (t ∷ ss))

abbrev pub others_of : String → List Contribution → List String
others_of id [] = []
others_of id (o ∷ os) =
    let rest = others_of id os in if o.id == id then rest else o.contact_email ∷ rest

reveal_message : List Contribution → Contribution → Message
reveal_message all c = record {
  to = c.contact_email;
  subject = "Your co-buying match is confirmed";
  body = record {
    title = "Your co-buying match is confirmed";
    intro =
        "Both parties confirmed."
        ∷ concat "Coordinate the gift with: " (join ", " (others_of c.id all))
        ∷ [];
    action = none;
    secondary = none;
    outro = [];
  };
}

unfoldable pub email_reveal : Runtime → List Contribution → List Contribution → World → World
unfolding reveal_message send_or_forget
email_reveal rt all [] w = w
email_reveal rt all (c ∷ cs) w = email_reveal rt all cs (send_or_forget rt (reveal_message all c) w)

abbrev pub cobuy_thank_you_subject : ThankYouSubject
cobuy_thank_you_subject = record {
  with_item = "Thank you for chipping in on {item}";
  no_item = "Thank you for chipping in";
}

unfoldable pub thank_each : Runtime → Item → GiftList → List Contribution → World → World
thank_each rt it l [] w = w
thank_each rt it l (c ∷ cs) w =
    thank_each rt it l cs (deliver_thank_you rt it l c.contact_email cobuy_thank_you_subject w)

thank_list : Runtime → Item → List Contribution → World → Result GiftList → World
unfolding thank_each
thank_list rt it cs w (err e) = w
thank_list rt it cs w (ok l) = thank_each rt it l cs w

thank_item : Runtime → String → List Contribution → World → Result Item → World
unfolding thank_list
thank_item rt tenant cs w (err e) = w
thank_item rt tenant cs w (ok it) = thank_list rt it cs w (Lists.get tenant it.list_id w.db)

unfoldable pub send_cobuy_thank_you : Runtime → String → String → List Contribution → World → World
unfolding thank_item
send_cobuy_thank_you rt tenant item_id [] w = w
send_cobuy_thank_you rt tenant item_id (c ∷ cs) w =
    thank_item rt tenant (c ∷ cs) w (Items.get tenant item_id w.db)
