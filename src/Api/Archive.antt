-- ===== src/Api/Archive.antt =====
-- internal/api/archive.go: how an owner takes an item off the list and puts it back, what the owner is
-- warned of, and whom the handler tells.
pub mod Notices
pub mod Again
pub mod Told
use yaadegar.Base.{
  String, Bool, true, false, not, ◌==◌, ◌||◌, List, [], ◌∷◌, ◌++◌, Option, none, some,
  if◌then◌else◌, concat, is_some,
}
use yaadegar.Base.Table.{select_row}
use yaadegar.Storage.{
  Result, ok, err, Error, Time, Item, Reservation, Contribution, ReservationState,
  ContributionStatus, Match, Account,
}
use yaadegar.Email.{Message}
use yaadegar.Sqlstore.Db.{Db}
use yaadegar.Sqlstore.Items
use yaadegar.Sqlstore.Reservations
use yaadegar.Sqlstore.Contributions
use yaadegar.Sqlstore.Matches
use yaadegar.Sqlstore.Matches.{is_proposed}
use yaadegar.World.{World, Flow, Act, stop, value, give, query, write, change, ◌>>=◌, ◌>>◌}
use yaadegar.Api.{Runtime, Reply, on_not_found}
use yaadegar.Api.ThankYou.{send_or_forget}
use yaadegar.Api.Owned.{own_item, for_tenant}
use yaadegar.Api.Items.{ItemView, show_item}

pub data ArchiveWarning : Type 0 where
  cobuy_match_pending : ArchiveWarning

-- One warning per cause, not one per row.
unfoldable pub warnings_of : List Match → List ArchiveWarning
warnings_of [] = []
warnings_of (m ∷ ms) =
    let rest = warnings_of ms in if is_proposed m.state then cobuy_match_pending ∷ [] else rest

unfoldable pub archive_warnings : String → String → Db → Result (List ArchiveWarning)
unfolding warnings_of
archive_warnings tenant item_id db = elim (Matches.list_by_item tenant item_id db) [
  | err e ↦ err e
  | ok ms ↦ ok (warnings_of ms)
]

pub record Notice : Type 0 where
  pub to : String
  pub subject : String
  pub intro : String
  pub outro : String

abbrev pub key_of : Runtime → String → String
key_of rt to = rt.to_lower (rt.trim_space to)

-- The addresses seen, and the notices so far, in the order of the calls of `add`.
pub record Round : Type 0 where
  pub seen : List String
  pub notices : List Notice

abbrev pub has : String → List String → Bool
has k ks = is_some (select_row (λ s. s == k) ks)

-- The closure `add`.
unfoldable pub add : Runtime → Notice → Round → Round
add rt n r =
    let key = key_of rt n.to in
    if key == "" || has key r.seen
    then r
    else record { seen = key ∷ r.seen; notices = r.notices ++ n ∷ [] }

abbrev pub named : String → String → String
named name otherwise = if name == "" then otherwise else name

abbrev pub marked : String → String
marked what =
    concat (concat "The owner has marked " what) " as finished, so it is no longer on their list."

unfoldable pub reserved_notice : Item → String → Notice
reserved_notice it to = record {
  to = to;
  subject = "A gift you reserved has come off the list";
  intro = marked (named it.name "an item you reserved");
  outro =
      "There is nothing you need to do — your reservation has not been cancelled, and you will not be asked about it again.";
}

unfoldable pub pledged_notice : Item → String → Notice
pledged_notice it to = record {
  to = to;
  subject = "A gift you pledged toward has come off the list";
  intro = marked (named it.name "an item you pledged toward");
  outro =
      "There is nothing you need to do — your pledge has not been cancelled, and you will not be asked about it again.";
}

abbrev pub is_expired : ReservationState → Bool
is_expired ReservationState.expired = true
is_expired _ = false

add_email : Runtime → Item → Option String → Round → Round
unfolding add reserved_notice
add_email rt it none r = r
add_email rt it (some to) r = add rt (reserved_notice it to) r

unfoldable pub add_reservations : Runtime → Item → List Reservation → Round → Round
unfolding add_email
add_reservations rt it [] r = r
add_reservations rt it (x ∷ xs) r =
    add_reservations rt it xs (if is_expired x.state then r else add_email rt it x.giver_email r)

-- `declined`, `withdrawn` and `expired`: this giver holds nothing any longer.
abbrev pub is_over : ContributionStatus → Bool
is_over ContributionStatus.declined = true
is_over ContributionStatus.withdrawn = true
is_over ContributionStatus.expired = true
is_over _ = false

unfoldable pub add_contributions : Runtime → Item → List Contribution → Round → Round
unfolding add pledged_notice
add_contributions rt it [] r = r
add_contributions rt it (c ∷ cs) r =
    add_contributions rt it cs
      (if is_over c.status then r else add rt (pledged_notice it c.contact_email) r)

-- A load that fails is logged, and its rows count as none.
abbrev pub rows_of : {A : Type 0} → Result (List A) → List A
rows_of (err e) = []
rows_of (ok rows) = rows

unfoldable pub notices_for : Runtime → String → Item → Db → Round
unfolding add_reservations add_contributions
notices_for rt tenant it db =
    add_contributions rt it (rows_of (Contributions.list_by_item tenant it.id db)) (
      add_reservations rt it (rows_of (Reservations.list_by_item tenant it.id db))
        (record { seen = []; notices = [] }))

pub notice_message : Notice → Message
notice_message n = record {
  to = n.to;
  subject = n.subject;
  body = record {
    title = n.subject;
    intro = n.intro ∷ [];
    action = none;
    secondary = none;
    outro = n.outro ∷ [];
  };
}

unfoldable pub send_notices : Runtime → List Notice → World → World
unfolding notice_message
send_notices rt [] w = w
send_notices rt (n ∷ ns) w = send_notices rt ns (send_or_forget rt (notice_message n) w)

unfoldable pub notify_givers_archived : Runtime → String → Item → World → World
unfolding notices_for send_notices
notify_givers_archived rt tenant it w = send_notices rt (notices_for rt tenant it w.db).notices w

-- The call that archives the item tells the givers, and no other.
after_archive : Runtime → String → Item → Bool → World → World
unfolding notify_givers_archived
after_archive rt tenant it true w = notify_givers_archived rt tenant it w
after_archive rt tenant it false w = w

-- The item as it is after the write.
unfoldable pub reread : String → Item → Act Reply ItemView
reread tenant it = do it' ← query Reply.failed (Items.get tenant it.id); show_item tenant it'

unfoldable pub archive_own :
    Runtime → Option Account → String → String → Act Reply (ItemView × List ArchiveWarning)
unfolding after_archive archive_warnings reread
archive_own rt caller id tenant = do
  it ← own_item caller tenant id
  warnings ← query Reply.failed (archive_warnings tenant it.id)
  archived_now ← write (on_not_found 404 "item not found") (Items.archive tenant it.id rt.now)
  change (after_archive rt tenant it archived_now)
  view ← reread tenant it
  give (view, warnings)

unfoldable pub archive_item :
    Runtime → Option String → Option Account → String → Act Reply (ItemView × List ArchiveWarning)
unfolding archive_own
archive_item rt tenant caller id = for_tenant tenant (archive_own rt caller id)

unfoldable pub unarchive_own : Runtime → Option Account → String → String → Act Reply ItemView
unarchive_own rt caller id tenant = do
  it ← own_item caller tenant id
  _ ← write (on_not_found 404 "item not found") (Items.unarchive tenant it.id rt.now)
  reread tenant it

-- No giver is told.
unfoldable pub unarchive_item :
    Runtime → Option String → Option Account → String → Act Reply ItemView
unfolding unarchive_own
unarchive_item rt tenant caller id = for_tenant tenant (unarchive_own rt caller id)
