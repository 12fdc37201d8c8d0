-- ===== src/Api/Archive/Again.antt =====
-- `ArchiveItem` of internal/api/archive.go, called once more.
use yaadegar.Base.{
  String, Bool, true, false, ◌≡◌, refl, ◌∙◌, List, [], ◌∷◌, Option, some, arith, Option-cases, inl,
  inr,
}
use yaadegar.Base.Table.{select_row, count_where}
use yaadegar.Base.Table.Count.{count-update_all, select_row-holds}
use yaadegar.Storage.{Result-cases, ok, Item, Account, Time}
use yaadegar.Sqlstore.Db.{Db, item_row}
use yaadegar.Sqlstore.Items
use yaadegar.Sqlstore.Items.{live_row}
use yaadegar.World.{World, Flow-cases, value}
use yaadegar.Api.{Runtime}
use yaadegar.Api.ThankYou.{send_or_forget-db}
use yaadegar.Api.Owned.{own_item, owns_list}
use yaadegar.Api.Items.{ItemView, show_item}
use yaadegar.Api.Archive.{
  ArchiveWarning, Notice, notices_for, send_notices, notify_givers_archived, after_archive,
  archive_warnings, reread, archive_own, archive_item,
}

abbrev NoneLive : String → String → Db → Type 0
NoneLive tenant id db = count_where (live_row tenant id) db.items ≡ 0

archive-NoneLive :
    (tenant id : String) (at : Time) (b : Bool) (db db' : Db)
    → Items.archive tenant id at db ≡ ok (b, db')
    → NoneLive tenant id db'
unfolding Items.archive Items.get
archive-NoneLive tenant id at b db db' h = ground (
  arith,
  count-update_all (live_row tenant id) (live_row tenant id)
      (λ it. record it { archived_at = some at }) db.items (λ it hit. ground arith)
      (λ it miss. miss),
)

archive-nothing :
    (tenant id : String) (at : Time) (b : Bool) (db db' : Db)
    → NoneLive tenant id db
    → Items.archive tenant id at db ≡ ok (b, db')
    → (b ≡ false) × (db' ≡ db)
unfolding Items.archive Items.get
archive-nothing tenant id at b db db' none_live h = ground arith

send-db : (rt : Runtime) (ns : List Notice) (w : World) → (send_notices rt ns w).db ≡ w.db
unfolding send_notices
send-db rt [] w = refl
send-db rt (n ∷ ns) w = send-db rt ns _ ∙ send_or_forget-db rt _ w

after-db :
    (rt : Runtime) (tenant : String) (it : Item) (b : Bool) (w : World)
    → (after_archive rt tenant it b w).db ≡ w.db
unfolding after_archive notify_givers_archived
after-db rt tenant it true w = send-db rt (notices_for rt tenant it w.db).notices w
after-db rt tenant it false w = refl

show-world : (tenant : String) (it : Item) (w : World) → (show_item tenant it w).1 ≡ w
unfolding show_item
show-world tenant it w = ground arith

pub own-world :
    (caller : Option Account) (tenant id : String) (w : World) → (own_item caller tenant id w).1 ≡ w
unfolding own_item owns_list
own-world caller tenant id w = ground arith

pub own-id :
    (caller : Option Account) (tenant id : String) (it : Item) (w w' : World)
    → own_item caller tenant id w ≡ (value it, w')
    → it.id ≡ id
unfolding own_item owns_list Items.get
own-id caller tenant id it w w' h =
    elim (Option-cases (select_row (item_row tenant id) w.db.items)) [
      | inl e ↦ absurd (ground arith)
      | inr (r, e) ↦ let hit = select_row-holds (item_row tenant id) w.db.items r e in ground arith
    ]

pub reread-world : (tenant : String) (it : Item) (w : World) → (reread tenant it w).1 ≡ w
unfolding reread
reread-world tenant it w = elim (Result-cases (Items.get tenant it.id w.db)) [
  | inl (e, failed) ↦ ground arith
  | inr (it', found) ↦ ground (arith, show-world tenant it' w)
]

archived :
    (rt : Runtime) (tenant id : String) (caller : Option Account) (w w' : World)
    (v : ItemView × List ArchiveWarning)
    → archive_own rt caller id tenant w ≡ (value v, w')
    → NoneLive tenant id w'.db
unfolding archive_own
archived rt tenant id caller w w' v h = elim (Flow-cases (own_item caller tenant id w)) [
  | inl (r, w1, stopped) ↦ absurd (ground arith)
  | inr (it, w1, found) ↦ elim (Result-cases (archive_warnings tenant it.id w1.db)) [
    | inl (e, failed) ↦ absurd (ground arith)
    | inr (ws, warned) ↦ elim (Result-cases (Items.archive tenant it.id rt.now w1.db)) [
      | inl (e, failed) ↦ absurd (ground arith)
      | inr ((b, db1), done) ↦
          let is_id = own-id caller tenant id it w w1 found in
          let none_live = archive-NoneLive tenant it.id rt.now b w1.db db1 done in
          let told = after_archive rt tenant it b (record w1 { db = db1 }) in
          let kept = after-db rt tenant it b (record w1 { db = db1 }) in
          let same : w' ≡ told = ground (arith, reread-world tenant it told) in
          rw (same, kept) (rw (← is_id) none_live)
    ]
  ]
]

repeated :
    (rt : Runtime) (tenant id : String) (caller : Option Account) (w : World)
    → NoneLive tenant id w.db
    → (archive_own rt caller id tenant w).1 ≡ w
unfolding archive_own after_archive
repeated rt tenant id caller w none_live = elim (Flow-cases (own_item caller tenant id w)) [
  | inl (r, w1, stopped) ↦ ground (arith, own-world caller tenant id w)
  | inr (it, w1, found) ↦
      let is_id = own-id caller tenant id it w w1 found in
      let same : w1 ≡ w = ground (arith, own-world caller tenant id w) in
      elim (Result-cases (Items.archive tenant it.id rt.now w.db)) [
        | inl (e, failed) ↦ ground arith
        | inr ((b, db1), done) ↦
            let (quiet, kept) =
              archive-nothing tenant it.id rt.now b w.db db1 (rw is_id none_live) done in
            ground (arith, reread-world tenant it w)
      ]
]

-- An item that a call has archived can be archived again and again: a further call, whoever makes it
-- and whenever, changes no row and sends no mail.
pub archive_item-again :
    (rt later : Runtime) (tenant id : String) (caller caller' : Option Account) (w w' : World)
    (v : ItemView × List ArchiveWarning)
    → archive_item rt (some tenant) caller id w ≡ (value v, w')
    → (archive_item later (some tenant) caller' id w').1 ≡ w'
unfolding archive_item
archive_item-again rt later tenant id caller caller' w w' v h =
    repeated later tenant id caller' w' (archived rt tenant id caller w w' v h)
