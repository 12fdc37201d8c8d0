-- ===== src/Api/Reserve/Refusals.antt =====
-- What a refusal of `CreateReservation` of internal/api/reservations.go leaves.
use yaadegar.Base.{
  String, Bool, true, false, ◌≡◌, refl, Option, none, some, arith, if◌then◌else◌, Bool-cases, inl,
  inr,
}
use yaadegar.Storage.{Result, ok, err, GiftList, Item, Reservation, Time, ReserverTier}
use yaadegar.Settings.{resolve}
use yaadegar.Email.{Message}
use yaadegar.Sqlstore.Db.{Db}
use yaadegar.Sqlstore.Reservations.Undo.{Stored, create-Stored, delete-create}
use yaadegar.World.{World}
use yaadegar.Api.{Server, Runtime, Reply}
use yaadegar.Api.Offer.{Offer}
use yaadegar.Api.Reserve.{
  ReserveRequest, ReserveBody, create_reservation, reserve_offered, reserve_at, reserve_guest,
  reserve_email_confirmed, reserve_to, after_pending, after_guest, mail_confirm, roll_back,
  pending_row, positive_or_one, or_empty, body_or_empty,
}

-- A reply with a reservation in it.
abbrev pub grants : Reply → Bool
grants (Reply.reserved id tok) = true
grants (Reply.pending id deadline shown) = true
grants _ = false

-- A response that grants nothing is that of a world that is as it was.
abbrev Harmless : World → Reply × World → Type 0
Harmless w o = grants o.0 ≡ false → o.1 ≡ w

if-Harmless :
    (w : World) (b : Bool) (x y : Reply × World)
    → Harmless w x
    → Harmless w y
    → Harmless w (if b then x else y)
if-Harmless w true x y hx hy = hx
if-Harmless w false x y hx hy = hy

after_guest-Harmless :
    (rt : Runtime) (tenant raw : String) (w : World) (res : Result (Reservation × Db))
    → Harmless w (after_guest rt tenant raw w res)
unfolding after_guest
after_guest-Harmless rt tenant raw w (err e) h = refl
after_guest-Harmless rt tenant raw w (ok (r, db)) h = ground arith

reserve_guest-Harmless :
    (rt : Runtime) (tenant : String) (it : Item) (b : ReserveBody)
    → (tok : Option (String × String)) (w : World) → Harmless w (reserve_guest rt tenant it b tok w)
unfolding reserve_guest
reserve_guest-Harmless rt tenant it b none w h = refl
reserve_guest-Harmless rt tenant it b (some (raw, hash)) w h =
    after_guest-Harmless rt tenant raw w _ h

mail_confirm-Harmless :
    (rt : Runtime) (tenant : String) (w : World) (r : Reservation) (db : Db)
    → (deadline : Option Time) (m : Message) → Stored tenant r w.db db
    → Harmless w (mail_confirm rt tenant w r db deadline m)
unfolding mail_confirm roll_back
mail_confirm-Harmless rt tenant w r db deadline m stored =
    let undone = delete-create tenant r w.db db stored in
    elim (Bool-cases (rt.send m)) [
      | inl e ↦ rw e (λ h. ground arith)
      | inr e ↦ rw (e, undone) (λ h. refl)
    ]

module _ (s : Server) (rt : Runtime) (tenant : String) (l : GiftList) (it : Item) where
  after_pending-Harmless :
      (raw to : String) (w : World) (res : Result (Reservation × Db))
      → ((r : Reservation) (db : Db) → res ≡ ok (r, db) → Stored tenant r w.db db)
      → Harmless w (after_pending s rt tenant l it raw to w res)
  unfolding after_pending
  after_pending-Harmless raw to w (err e) stored h = refl
  after_pending-Harmless raw to w (ok (r, db)) stored h =
      mail_confirm-Harmless rt tenant w r db _ _ (stored r db refl) h

  reserve_to-Harmless :
      (b : ReserveBody) (to : String) (tok : Option (String × String)) (w : World)
      → Harmless w (reserve_to s rt tenant l it b to tok w)
  unfolding reserve_to
  reserve_to-Harmless b to none w h = refl
  reserve_to-Harmless b to (some (raw, hash)) w h =
      let made = pending_row it (positive_or_one b.quantity) b rt.new_id hash in
      after_pending-Harmless raw to w _
        (λ r db. create-Stored tenant rt.new_id rt.now made r it.quantity_wanted w.db db) h

  reserve_email_confirmed-Harmless :
      (b : ReserveBody) (w : World) → Harmless w (reserve_email_confirmed s rt tenant l it b w)
  unfolding reserve_email_confirmed
  reserve_email_confirmed-Harmless b w =
      if-Harmless w _ _ _ (λ h. refl)
        (if-Harmless w _ _ _ (reserve_to-Harmless b (or_empty b.giver_email) rt.new_token w)
          (λ h. refl))

  reserve_at-Harmless :
      (tier : ReserverTier) (b : ReserveBody) (w : World)
      → Harmless w (reserve_at tier s rt tenant l it b w)
  unfolding reserve_at
  reserve_at-Harmless ReserverTier.unset b w h =
      reserve_guest-Harmless rt tenant it b rt.new_token w h
  reserve_at-Harmless ReserverTier.full_guest b w h =
      reserve_guest-Harmless rt tenant it b rt.new_token w h
  reserve_at-Harmless ReserverTier.email_confirmed b w h = reserve_email_confirmed-Harmless b w h
  reserve_at-Harmless ReserverTier.registered b w h = refl

reserve_offered-Harmless :
    (s : Server) (rt : Runtime) (tenant : String) (b : ReserveBody) (o : Offer) (w : World)
    → Harmless w (reserve_offered s rt tenant b o w)
unfolding reserve_offered
reserve_offered-Harmless s rt tenant b (Offer.refused r) w h = refl
reserve_offered-Harmless s rt tenant b (Offer.offered l it) w h =
    let tier = resolve l.reserver_tier s.default_reserver_tier in
    ground (arith, reserve_at-Harmless s rt tenant l it tier b w)

-- A request to reserve that is not answered by a reservation, active or provisional, leaves the
-- database and the mail as they were: also where the row was inserted and the mail was refused.
pub create_reservation-refused :
    (s : Server) (rt : Runtime) (ctx : Option String) (req : ReserveRequest) (w : World)
    → grants (create_reservation s rt ctx req w).0 ≡ false
    → (create_reservation s rt ctx req w).1 ≡ w
unfolding create_reservation
create_reservation-refused s rt none req w h = refl
create_reservation-refused s rt (some tenant) req w h =
    reserve_offered-Harmless s rt tenant (body_or_empty req.body) _ w h
