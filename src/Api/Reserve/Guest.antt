-- ===== src/Api/Reserve/Guest.antt =====
-- What a reserve that is answered with a reservation has stored.
use yaadegar.Base.{String, Bool, true, false, ◌≡◌, refl, Option, none, some, arith, if◌then◌else◌}
use yaadegar.Storage.{Result, ok, err, GiftList, Item, Reservation, ReserverTier, ReservationState}
use yaadegar.Settings.{resolve}
use yaadegar.Sqlstore.Db.{Db}
use yaadegar.Sqlstore.Reservations
use yaadegar.Sqlstore.Reservations.Undo.{Stored, create-Stored}
use yaadegar.Sqlstore.Capacity.{reserve-checks}
use yaadegar.World.{World}
use yaadegar.Api.{Server, Runtime, Reply, is_reserved}
use yaadegar.Api.Offer.{Offer, refused_reserved, refused_reserved-offer}
use yaadegar.Api.ThankYou.{send_thank_you-db}
use yaadegar.Api.Reserve.{
  ReserveRequest, ReserveBody, create_reservation, reserve_offered, reserve_at, reserve_guest,
  reserve_email_confirmed, reserve_to, gate_at, captcha_gate, after_pending, after_guest,
  mail_confirm, roll_back, guest_row, positive_or_one, or_empty, body_or_empty,
}

-- The row behind a reservation that was granted: it is active, carries the hash of the token that was
-- returned, and is all that changed in the database.
pub record Granted (rt : Runtime) (tenant : String) (w : World) (id : String) (tok : Option String)
    (w' : World) : Type 0 where
  pub row : Reservation
  pub stored : Stored tenant row w.db w'.db
  pub row_id : row.id ≡ id
  pub row_state : row.state ≡ ReservationState.active
  pub raw : String
  pub issued : tok ≡ some raw
  pub minted : rt.new_token ≡ some (raw, row.token_hash)

-- The kept fields of `guest_row`.
abbrev pub Reserved : Runtime → String → World → Reply × World → Type 0
Reserved rt tenant w o =
    (id : String) (tok : Option String)
    → o.0 ≡ Reply.reserved id tok
    → Granted rt tenant w id tok o.1

guest-Stored :
    (rt : Runtime) (tenant hash : String) (it : Item) (b : ReserveBody) (w : World)
    (r : Reservation) (db : Db)
    → Reservations.create_within_capacity tenant rt.new_id rt.now
        (guest_row it (positive_or_one b.quantity) b hash)
        it.quantity_wanted
        w.db
      ≡ ok (r, db)
    → Stored tenant r w.db db × (r.state ≡ ReservationState.active) × (r.token_hash ≡ hash)
unfolding guest_row Reservations.prep
guest-Stored rt tenant hash it b w r db h =
    let made = guest_row it (positive_or_one b.quantity) b hash in
    let done = reserve-checks tenant rt.new_id rt.now made r it.quantity_wanted w.db db h in
    (
      create-Stored tenant rt.new_id rt.now made r it.quantity_wanted w.db db h,
      rw done.0 refl,
      rw done.0 refl,
    )

other-Reserved :
    (rt : Runtime) (tenant : String) (w : World) (o : Reply × World)
    → is_reserved o.0 ≡ false
    → Reserved rt tenant w o
other-Reserved rt tenant w o e id tok h = absurd (ground arith)

if-Reserved :
    (rt : Runtime) (tenant : String) (w : World) (b : Bool) (x y : Reply × World)
    → Reserved rt tenant w x
    → Reserved rt tenant w y
    → Reserved rt tenant w (if b then x else y)
if-Reserved rt tenant w true x y hx hy = hx
if-Reserved rt tenant w false x y hx hy = hy

after_guest-Reserved :
    (rt : Runtime) (tenant raw hash : String) (w : World) (res : Result (Reservation × Db))
    → rt.new_token ≡ some (raw, hash)
    → ((r : Reservation) (db : Db)
        → res ≡ ok (r, db)
        → Stored tenant r w.db db × (r.state ≡ ReservationState.active) × (r.token_hash ≡ hash))
    → Reserved rt tenant w (after_guest rt tenant raw w res)
unfolding after_guest
after_guest-Reserved rt tenant raw hash w (err e) minted stored id tok h = absurd (ground arith)
after_guest-Reserved rt tenant raw hash w (ok (r, db)) minted stored id tok h =
    let s = stored r db refl in
    record {
      row = r;
      stored = rw (send_thank_you-db rt tenant r (record w { db = db })) s.0;
      row_id = ground arith;
      row_state = s.1;
      raw = raw;
      issued = ground arith;
      minted = rw s.2 minted;
    }

reserve_guest-Reserved :
    (rt : Runtime) (tenant : String) (it : Item) (b : ReserveBody) (w : World)
    → (tok : Option (String × String)) → rt.new_token ≡ tok
    → Reserved rt tenant w (reserve_guest rt tenant it b tok w)
unfolding reserve_guest
reserve_guest-Reserved rt tenant it b w none e =
    other-Reserved rt tenant w (reserve_guest rt tenant it b none w) refl
reserve_guest-Reserved rt tenant it b w (some (raw, hash)) e =
    after_guest-Reserved rt tenant raw hash w _ e (guest-Stored rt tenant hash it b w)

reserve_email_confirmed-other :
    (s : Server) (rt : Runtime) (tenant : String) (l : GiftList) (it : Item) (b : ReserveBody)
    (w : World)
    → is_reserved (reserve_email_confirmed s rt tenant l it b w).0 ≡ false
unfolding reserve_email_confirmed reserve_to after_pending mail_confirm roll_back
reserve_email_confirmed-other s rt tenant l it b w = ground arith

reserve_at-Reserved :
    (tier : ReserverTier) (s : Server) (rt : Runtime) (tenant : String) (l : GiftList) (it : Item)
    → (b : ReserveBody) (w : World) → Reserved rt tenant w (reserve_at tier s rt tenant l it b w)
unfolding reserve_at
reserve_at-Reserved ReserverTier.unset s rt tenant l it b w =
    reserve_guest-Reserved rt tenant it b w rt.new_token refl
reserve_at-Reserved ReserverTier.full_guest s rt tenant l it b w =
    reserve_guest-Reserved rt tenant it b w rt.new_token refl
reserve_at-Reserved ReserverTier.email_confirmed s rt tenant l it b w =
    other-Reserved rt tenant w _ (reserve_email_confirmed-other s rt tenant l it b w)
reserve_at-Reserved ReserverTier.registered s rt tenant l it b w = other-Reserved rt tenant w _ refl

gate_at-other :
    (tier : ReserverTier) (s : Server) (rt : Runtime) (tok : String) (r : Reply)
    → gate_at tier s rt tok ≡ some r
    → is_reserved r ≡ false
unfolding gate_at captcha_gate
gate_at-other tier s rt tok r h = ground arith

gated-Reserved :
    (s : Server) (rt : Runtime) (tenant : String) (tier : ReserverTier) (l : GiftList) (it : Item)
    → (b : ReserveBody) (w : World) (gate : Option Reply)
    → gate_at tier s rt (or_empty b.captcha_token) ≡ gate
    → Reserved rt tenant w
        (elim gate [ some r ↦ (r, w) | none ↦ reserve_at tier s rt tenant l it b w ])
gated-Reserved s rt tenant tier l it b w none e = reserve_at-Reserved tier s rt tenant l it b w
gated-Reserved s rt tenant tier l it b w (some r) e =
    other-Reserved rt tenant w (r, w) (gate_at-other tier s rt (or_empty b.captcha_token) r e)

reserve_offered-Reserved :
    (s : Server) (rt : Runtime) (tenant : String) (b : ReserveBody) (o : Offer) (w : World)
    → refused_reserved o ≡ false
    → Reserved rt tenant w (reserve_offered s rt tenant b o w)
unfolding reserve_offered
reserve_offered-Reserved s rt tenant b (Offer.refused r) w e = other-Reserved rt tenant w (r, w) e
reserve_offered-Reserved s rt tenant b (Offer.offered l it) w e =
    let tier = resolve l.reserver_tier s.default_reserver_tier in
    gated-Reserved s rt tenant tier l it b w (gate_at tier s rt (or_empty b.captcha_token)) refl

-- An answer with an active reservation on the anonymous surface.
pub create_reservation-Granted :
    (s : Server) (rt : Runtime) (tenant : String) (req : ReserveRequest) (w : World)
    → Reserved rt tenant w (create_reservation s rt (some tenant) req w)
unfolding create_reservation
create_reservation-Granted s rt tenant req w =
    reserve_offered-Reserved s rt tenant (body_or_empty req.body) _ w
      (refused_reserved-offer tenant rt.now req.share_slug req.item_id w.db)
