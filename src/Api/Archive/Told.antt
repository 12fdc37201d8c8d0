-- ===== src/Api/Archive/Told.antt =====
-- The mail that `ArchiveItem` of internal/api/archive.go hands to the mail server.
use yaadegar.Base.{
  ℕ, ◌+◌, zero, String, Bool, true, false, ◌==◌, ◌≡◌, refl, ap, ◌∙◌, List, [], ◌∷◌, ◌++◌, Option,
  some, ltb, arith, inl, inr,
}
use yaadegar.Base.Table.{count_where}
use yaadegar.Storage.{Result-cases, ok, Item, Account, Time}
use yaadegar.Email.{Message}
use yaadegar.Sqlstore.Db.{Db}
use yaadegar.Sqlstore.Items
use yaadegar.Sqlstore.Items.{live_row}
use yaadegar.World.{World, Flow-cases, value}
use yaadegar.Api.{Runtime}
use yaadegar.Api.ThankYou.{send_or_forget}
use yaadegar.Api.Items.{ItemView}
use yaadegar.Api.Owned.{own_item}
use yaadegar.Api.Archive.{
  ArchiveWarning, Notice, key_of, notice_message, notices_for, send_notices, notify_givers_archived,
  after_archive, archive_warnings, archive_own, archive_item,
}
use yaadegar.Api.Archive.Again.{reread-world, own-world, own-id}
use yaadegar.Api.Archive.Notices.{told, once, is_holder, notices_for-once}

-- The messages to a mailbox, however its address is written.
abbrev pub received : Runtime → String → List Message → ℕ
received rt k ms = count_where (λ m. key_of rt m.to == k) ms

received-append :
    (rt : Runtime) (k : String) (ms : List Message) (m : Message)
    → received rt k (ms ++ m ∷ []) ≡ received rt k ms + once (key_of rt m.to == k)
unfolding count_where
received-append rt k [] m = ground arith
received-append rt k (x ∷ ms) m = ground (arith, received-append rt k ms m)

-- A mail server that takes every message.
abbrev pub TakesAll : Runtime → Type 0
TakesAll rt = (m : Message) → rt.send m ≡ true

taken :
    (rt : Runtime) (k : String) (m : Message) (w : World)
    → TakesAll rt
    → received rt k (send_or_forget rt m w).sent ≡ received rt k w.sent + once (key_of rt m.to == k)
unfolding send_or_forget
taken rt k m w takes = rw (takes m) (received-append rt k w.sent m)

send-received :
    (rt : Runtime) (k : String) (ns : List Notice) (w : World)
    → TakesAll rt
    → received rt k (send_notices rt ns w).sent ≡ received rt k w.sent + told rt k ns
unfolding send_notices notice_message count_where
send-received rt k [] w takes = omega arith
send-received rt k (n ∷ ns) w takes =
    let w' = send_or_forget rt (notice_message n) w in
    let rest = send-received rt k ns w' takes in
    let first = taken rt k (notice_message n) w takes in ground (arith, rest, first)

-- The item is in the store, and was not archived.
abbrev pub InUse : String → String → Db → Type 0
InUse tenant id db = ltb zero (count_where (live_row tenant id) db.items) ≡ true

archive-now :
    (tenant id : String) (at : Time) (b : Bool) (db db' : Db)
    → InUse tenant id db
    → Items.archive tenant id at db ≡ ok (b, db')
    → (b ≡ true) × (db'.reservations ≡ db.reservations) × (db'.contributions ≡ db.contributions)
unfolding Items.archive
archive-now tenant id at b db db' live h = ground arith

notified-received :
    (rt : Runtime) (tenant k : String) (it : Item) (w : World)
    → (k == "") ≡ false
    → TakesAll rt
    → received rt k (notify_givers_archived rt tenant it w).sent
      ≡ received rt k w.sent + once (is_holder rt tenant it.id k w.db)
unfolding notify_givers_archived
notified-received rt tenant k it w ne takes =
    send-received rt k (notices_for rt tenant it w.db).notices w takes
    ∙ ap (λ n. received rt k w.sent + n) (notices_for-once rt tenant k it w.db ne)

-- The call that archives an item that was in use hands the mail server one message for each mailbox
-- that a live reservation or a standing pledge on the item names, and none for another; a reservation
-- is live until it expires, and a pledge stands unless it is declined, withdrawn or expired. Two
-- addresses are one mailbox if trimming and lower case make them equal. The mail server takes all.
pub archive_item-tells :
    (rt : Runtime) (tenant id k : String) (caller : Option Account) (w w' : World)
    (v : ItemView × List ArchiveWarning)
    → archive_item rt (some tenant) caller id w ≡ (value v, w')
    → InUse tenant id w.db
    → TakesAll rt
    → (k == "") ≡ false
    → received rt k w'.sent ≡ received rt k w.sent + once (is_holder rt tenant id k w.db)
unfolding archive_item archive_own after_archive
archive_item-tells rt tenant id k caller w w' v h live takes ne =
    elim (Flow-cases (own_item caller tenant id w)) [
      | inl (r, w1, stopped) ↦ absurd (ground arith)
      | inr (it, w1, found) ↦
          let same_id = own-id caller tenant id it w w1 found in
          let unread : w1 ≡ w = ground (arith, own-world caller tenant id w) in
          elim (Result-cases (archive_warnings tenant it.id w.db)) [
            | inl (e, failed) ↦ absurd (ground arith)
            | inr (ws, warned) ↦ elim (Result-cases (Items.archive tenant it.id rt.now w.db)) [
              | inl (e, failed) ↦ absurd (ground arith)
              | inr ((b, db1), done) ↦
                  let (now, kept_r, kept_c) =
                    archive-now tenant it.id rt.now b w.db db1 (rw same_id live) done in
                  let w2 : World = record w { db = db1 } in
                  let told_all = notified-received rt tenant k it w2 ne takes in
                  let after = notify_givers_archived rt tenant it w2 in
                  let same : w' ≡ after = ground (arith, reread-world tenant it after) in
                  rw (same, told_all, kept_r, kept_c, same_id) refl
            ]
          ]
    ]
