-- ===== src/Api/Archive/Notices.antt =====
-- Whom `notifyGiversArchived` of internal/api/archive.go tells.
use yaadegar.Base.{
  ℕ, ◌+◌, String, Bool, true, false, not, ◌==◌, ◌&&◌, ◌||◌, ◌≡◌, refl, sym, ap, ◌∙◌, List, [], ◌∷◌,
  ◌++◌, Option, none, some, if◌then◌else◌, is_some, arith,
}
use yaadegar.Base.Table.{select_row, select_where, count_where}
use yaadegar.Storage.{Item, Reservation, Contribution, is_live}
use yaadegar.Sqlstore.Db.{Db}
use yaadegar.Sqlstore.Reservations
use yaadegar.Sqlstore.Contributions
use yaadegar.Api.{Runtime}
use yaadegar.Api.Archive.{
  Notice, Round, key_of, has, add, add_email, add_reservations, add_contributions, notices_for,
  is_expired, is_over, reserved_notice, pledged_notice,
}

-- The notices to a mailbox, however its address is written.
abbrev pub told : Runtime → String → List Notice → ℕ
told rt k ns = count_where (λ n. key_of rt n.to == k) ns

abbrev pub once : Bool → ℕ
once true = 1
once false = 0

-- A mailbox was told once if it was seen, and never otherwise.
abbrev Honest : Runtime → String → Round → Type 0
Honest rt k r = told rt k r.notices ≡ once (has k r.seen)

told-append :
    (rt : Runtime) (k : String) (ns : List Notice) (n : Notice)
    → told rt k (ns ++ n ∷ []) ≡ told rt k ns + once (key_of rt n.to == k)
unfolding count_where
told-append rt k [] n = ground arith
told-append rt k (x ∷ ns) n = ground (arith, told-append rt k ns n)

add-Honest :
    (rt : Runtime) (k : String) (n : Notice) (r : Round) → Honest rt k r → Honest rt k (add rt n r)
unfolding add select_row
add-Honest rt k n r h = ground (arith, told-append rt k r.notices n)

-- Being added is being seen.
add-has :
    (rt : Runtime) (k : String) (n : Notice) (r : Round)
    → (k == "") ≡ false
    → has k (add rt n r).seen ≡ (has k r.seen || key_of rt n.to == k)
unfolding add select_row
add-has rt k n r ne = ground arith

-- The mailboxes of the reservations and of the pledges that hold something.
abbrev pub writes_from : Runtime → String → Option String → Bool
writes_from rt k none = false
writes_from rt k (some to) = key_of rt to == k

abbrev pub holds_reservation : Runtime → String → Reservation → Bool
holds_reservation rt k r = is_live r.state && writes_from rt k r.giver_email

abbrev pub holds_pledge : Runtime → String → Contribution → Bool
holds_pledge rt k c = not (is_over c.status) && key_of rt c.contact_email == k

email-seen :
    (rt : Runtime) (it : Item) (k : String) (e : Option String) (r : Round)
    → (k == "") ≡ false
    → Honest rt k r
    → Honest rt k (add_email rt it e r)
      × (has k (add_email rt it e r).seen ≡ (has k r.seen || writes_from rt k e))
unfolding add_email reserved_notice
email-seen rt it k none r ne h = (h, ground arith)
email-seen rt it k (some to) r ne h =
    (add-Honest rt k (reserved_notice it to) r h, add-has rt k (reserved_notice it to) r ne)

reservation-seen :
    (rt : Runtime) (it : Item) (k : String) (x : Reservation) (r : Round)
    → (k == "") ≡ false
    → Honest rt k r
    → Honest rt k (if is_expired x.state then r else add_email rt it x.giver_email r)
      × (has k (if is_expired x.state then r else add_email rt it x.giver_email r).seen
          ≡ (has k r.seen || holds_reservation rt k x))
reservation-seen rt it k x r ne h =
    let seen = email-seen rt it k x.giver_email r ne h in ground (arith, seen)

reservations-seen :
    (rt : Runtime) (it : Item) (k : String) (xs : List Reservation) (r : Round)
    → (k == "") ≡ false
    → Honest rt k r
    → Honest rt k (add_reservations rt it xs r)
      × (has k (add_reservations rt it xs r).seen
          ≡ (has k r.seen || is_some (select_row (holds_reservation rt k) xs)))
unfolding add_reservations select_row
reservations-seen rt it k [] r ne h = (h, ground arith)
reservations-seen rt it k (x ∷ xs) r ne h =
    let next = if is_expired x.state then r else add_email rt it x.giver_email r in
    let (h1, seen1) = reservation-seen rt it k x r ne h in
    let (h2, seen2) = reservations-seen rt it k xs next ne h1 in (h2, seen2 ∙ ground (arith, seen1))

contributions-seen :
    (rt : Runtime) (it : Item) (k : String) (cs : List Contribution) (r : Round)
    → (k == "") ≡ false
    → Honest rt k r
    → Honest rt k (add_contributions rt it cs r)
      × (has k (add_contributions rt it cs r).seen
          ≡ (has k r.seen || is_some (select_row (holds_pledge rt k) cs)))
unfolding add_contributions select_row pledged_notice
contributions-seen rt it k [] r ne h = (h, ground arith)
contributions-seen rt it k (c ∷ cs) r ne h =
    let n = pledged_notice it c.contact_email in
    let next = if is_over c.status then r else add rt n r in
    let h1 : Honest rt k next = ground (arith, add-Honest rt k n r h) in
    let seen1 : has k next.seen ≡ (has k r.seen || holds_pledge rt k c) =
      ground (arith, add-has rt k n r ne) in
    let (h2, seen2) = contributions-seen rt it k cs next ne h1 in
    (h2, seen2 ∙ ground (arith, seen1))

-- The first row of the item that satisfies a condition, looked up in the table.
select-select :
    {A : Type 0} (p q : A → Bool) (l : List A)
    → select_row q (select_where p l) ≡ select_row (λ x. p x && q x) l
unfolding select_row select_where
select-select p q [] = refl
select-select p q (x ∷ l) = ground (arith, select-select p q l)

-- A mailbox that a live reservation or a standing pledge on the item names.
abbrev pub is_holder : Runtime → String → String → String → Db → Bool
is_holder rt tenant item k db =
    is_some (
      select_row (λ r. (r.tenant_id == tenant && r.item_id == item) && holds_reservation rt k r)
        db.reservations)
    || is_some (
        select_row (λ c. (c.tenant_id == tenant && c.item_id == item) && holds_pledge rt k c)
          db.contributions)

-- The notices for an item name a mailbox once if a reservation on the item that has not expired, or a
-- pledge on it that is not declined, withdrawn or expired, names it, and never otherwise. Two
-- addresses are one mailbox if trimming and lower case make them equal.
pub notices_for-once :
    (rt : Runtime) (tenant k : String) (it : Item) (db : Db)
    → (k == "") ≡ false
    → told rt k (notices_for rt tenant it db).notices ≡ once (is_holder rt tenant it.id k db)
unfolding notices_for Reservations.list_by_item Contributions.list_by_item count_where select_row
notices_for-once rt tenant k it db ne =
    let rs = select_where (λ r. r.tenant_id == tenant && r.item_id == it.id) db.reservations in
    let cs = select_where (λ c. c.tenant_id == tenant && c.item_id == it.id) db.contributions in
    let start : Round = record { seen = []; notices = [] } in
    let (h1, seen1) = reservations-seen rt it k rs start ne refl in
    let (h2, seen2) = contributions-seen rt it k cs (add_reservations rt it rs start) ne h1 in
    let first =
      select-select (λ r. r.tenant_id == tenant && r.item_id == it.id) (holds_reservation rt k)
        db.reservations in
    let second =
      select-select (λ c. c.tenant_id == tenant && c.item_id == it.id) (holds_pledge rt k)
        db.contributions in
    h2 ∙ ap once (seen2 ∙ rw (sym first, sym second) (ground (arith, seen1)))
