-- ===== src/Sqlstore/Reservations/Lifecycle.antt =====
-- The life of a reservation: what the transitions of decay.go and the restart of `Unarchive` do to the
-- rows of the table.
use yaadegar.Base.{
  String, Bool, true, ◌≡◌, refl, sym, ◌∙◌, ap, ◌⊎◌, inl, inr, List, [], ◌∷◌, map, arith,
  if◌then◌else◌, Bool-cases,
}
use mathlib.Core.List.{Memᴰ}
use mathlib.Core.Path.{subst}
use yaadegar.Base.Table.{select_row}
use yaadegar.Storage.{Result, Time, Reservation, ReservationState, is_live}
use yaadegar.Sqlstore.Db.{Db}
use yaadegar.Sqlstore.Reservations.{
  row, transition_state, mark_reserver_notified, mark_expired, expire_pending, confirm_reservation,
  renew, set_notified, set_expired, set_confirmed, set_renewed,
}
use yaadegar.Sqlstore.Reservations.Moves.{
  Fresh, Unique, moved, left, with_rows, transition-head, transition-tail,
}

-- What a transition makes of each row.
abbrev pub touch :
    String → String → ReservationState → (Reservation → Reservation) → Reservation → Reservation
touch tenant id from update r = if row tenant id r then moved from update r else r

map-touch-Fresh :
    (tenant id : String) (from : ReservationState) (update : Reservation → Reservation)
    (r : Reservation) (l : List Reservation)
    → row tenant id r ≡ true
    → Fresh r l
    → map (touch tenant id from update) l ≡ l
map-touch-Fresh tenant id from update r [] k h = refl
map-touch-Fresh tenant id from update r (y ∷ l) k h =
    ground (arith, map-touch-Fresh tenant id from update r l k h.1)

row-key :
    (tenant id : String) (r : Reservation)
    → row tenant id r ≡ true
    → (r.tenant_id ≡ tenant) × (r.id ≡ id)
row-key tenant id r h = ground arith

-- A transition touches the rows one by one, and no other table.
pub transition-map :
    (tenant id : String) (from : ReservationState) (update : Reservation → Reservation) (db : Db)
    (l : List Reservation)
    → Unique l
    → left (with_rows db l) (transition_state tenant id from update (with_rows db l))
      ≡ with_rows db (map (touch tenant id from update) l)
transition-map tenant id from update db [] u = unfold transition_state select_row in refl
transition-map tenant id from update db (r ∷ l) u = elim (Bool-cases (row tenant id r)) [
  | inl here ↦
      let key = row-key tenant id r here in
      rw here (
        rw (map-touch-Fresh tenant id from update r l here u.0)
          (rw (← key.0, ← key.1) (transition-head from update db r l u.0)))
  | inr there ↦ rw there (
      transition-tail from update (with_rows db l) tenant id r there
      ∙ ap (λ (d : Db). with_rows d (r ∷ d.reservations))
          (transition-map tenant id from update db l u.1))
]

-- One step in the life of a reservation.
pub data Edge (r s : Reservation) : Type 0 where
  stays : s ≡ r → Edge r s
  confirms :
      (at : Time) (hash : String)
      → r.state ≡ ReservationState.pending_confirmation
      → s ≡ set_confirmed at hash r
      → Edge r s
  asks :
      (at : Time) (keep_hash release_hash : String)
      → r.state ≡ ReservationState.active
      → s ≡ set_notified at keep_hash release_hash r
      → Edge r s
  keeps :
      (at : Time) → r.state ≡ ReservationState.reserver_notified → s ≡ set_renewed at r → Edge r s
  lapses :
      (at : Time)
      → (r.state ≡ ReservationState.pending_confirmation)
        ⊎ (r.state ≡ ReservationState.reserver_notified)
      → s ≡ set_expired at r
      → Edge r s

-- The transitions that the handlers and the sweep ask for.
pub data Call : Type 0 where
  notify : String → Time → String → String → Call
  expire lapse keep : String → Time → Call
  confirm : String → String → Time → Call

pub perform : String → Call → Db → Result (Bool × Db)
perform tenant (notify id at keep_hash release_hash) =
    mark_reserver_notified tenant id at keep_hash release_hash
perform tenant (expire id at) = mark_expired tenant id at
perform tenant (lapse id at) = expire_pending tenant id at
perform tenant (keep id at) = renew tenant id at
perform tenant (confirm id hash at) = confirm_reservation tenant id hash at

-- What a call makes of each row.
pub effect : String → Call → Reservation → Reservation
effect tenant (notify id at k q) = touch tenant id ReservationState.active (set_notified at k q)
effect tenant (expire id at) = touch tenant id ReservationState.reserver_notified (set_expired at)
effect tenant (lapse id at) = touch tenant id ReservationState.pending_confirmation (set_expired at)
effect tenant (keep id at) = touch tenant id ReservationState.reserver_notified (set_renewed at)
effect tenant (confirm id hash at) =
    touch tenant id ReservationState.pending_confirmation (set_confirmed at hash)

-- A call replaces every row by its effect on that row, and leaves the other tables alone.
pub perform-effect :
    (tenant : String) (c : Call) (db : Db)
    → Unique db.reservations
    → left db (perform tenant c db) ≡ with_rows db (map (effect tenant c) db.reservations)
unfolding perform effect mark_reserver_notified mark_expired expire_pending renew
    confirm_reservation
perform-effect tenant (notify id at k q) db u = transition-map tenant id _ _ db db.reservations u
perform-effect tenant (expire id at) db u = transition-map tenant id _ _ db db.reservations u
perform-effect tenant (lapse id at) db u = transition-map tenant id _ _ db db.reservations u
perform-effect tenant (keep id at) db u = transition-map tenant id _ _ db db.reservations u
perform-effect tenant (confirm id hash at) db u = transition-map tenant id _ _ db db.reservations u

touch-cases :
    (tenant id : String) (from : ReservationState) (update : Reservation → Reservation)
    (r : Reservation)
    → (touch tenant id from update r ≡ r)
      ⊎ ((r.state ≡ from) × (touch tenant id from update r ≡ update r))
touch-cases tenant id from update r = ground arith

-- The effect is one step in the life of the row.
pub effect-Edge : (tenant : String) (c : Call) (r : Reservation) → Edge r (effect tenant c r)
unfolding effect
effect-Edge tenant (notify id at k q) r =
    elim (touch-cases tenant id ReservationState.active (set_notified at k q) r) [
      | inl e ↦ stays e
      | inr h ↦ asks at k q h.0 h.1
    ]
effect-Edge tenant (expire id at) r =
    elim (touch-cases tenant id ReservationState.reserver_notified (set_expired at) r) [
      | inl e ↦ stays e
      | inr h ↦ lapses at (inr h.0) h.1
    ]
effect-Edge tenant (lapse id at) r =
    elim (touch-cases tenant id ReservationState.pending_confirmation (set_expired at) r) [
      | inl e ↦ stays e
      | inr h ↦ lapses at (inl h.0) h.1
    ]
effect-Edge tenant (keep id at) r =
    elim (touch-cases tenant id ReservationState.reserver_notified (set_renewed at) r) [
      | inl e ↦ stays e
      | inr h ↦ keeps at h.0 h.1
    ]
effect-Edge tenant (confirm id hash at) r =
    elim (touch-cases tenant id ReservationState.pending_confirmation (set_confirmed at hash) r) [
      | inl e ↦ stays e
      | inr h ↦ confirms at hash h.0 h.1
    ]

pub Edge-expired : (r s : Reservation) → Edge r s → r.state ≡ ReservationState.expired → s ≡ r
Edge-expired r s (stays e) h = e
Edge-expired r s (confirms at hash p e) h = ground arith
Edge-expired r s (asks at k q p e) h = ground arith
Edge-expired r s (keeps at p e) h = ground arith
Edge-expired r s (lapses at p e) h = ground arith

-- A step keeps the key, the item and the quantity, and never makes an expired row live.
pub Edge-keeps :
    (r s : Reservation)
    → Edge r s
    → (s.tenant_id ≡ r.tenant_id)
      × (s.id ≡ r.id)
      × (s.item_id ≡ r.item_id)
      × (s.quantity ≡ r.quantity)
      × (is_live s.state ≡ true → is_live r.state ≡ true)
Edge-keeps r s (stays e) = ground arith
Edge-keeps r s (confirms at hash p e) = ground arith
Edge-keeps r s (asks at k q p e) = ground arith
Edge-keeps r s (keeps at p e) = ground arith
Edge-keeps r s (lapses at p e) = ground arith

-- The five transitions, by any tenants, in any order.
unfoldable pub perform_all : List (String × Call) → Db → Db
perform_all [] db = db
perform_all ((tenant, c) ∷ cs) db = perform_all cs (left db (perform tenant c db))

mem-map-Edge :
    (tenant : String) (c : Call) (r : Reservation) (l : List Reservation)
    → r.state ≡ ReservationState.expired
    → Memᴰ r l
    → Memᴰ r (map (effect tenant c) l)
mem-map-Edge tenant c r [] h m = elim m [ ]
mem-map-Edge tenant c r (y ∷ l) h (Memᴰ.head e) = Memᴰ.head (
    e
    ∙ sym
        (Edge-expired y _ (effect-Edge tenant c y) (ap (λ (x : Reservation). x.state) (sym e) ∙ h)))
mem-map-Edge tenant c r (y ∷ l) h (Memᴰ.tail m) = Memᴰ.tail (mem-map-Edge tenant c r l h m)

Fresh-effect :
    (tenant : String) (c : Call) (r : Reservation) (l : List Reservation)
    → Fresh r l
    → Fresh (effect tenant c r) (map (effect tenant c) l)
Fresh-effect tenant c r [] h = tt
Fresh-effect tenant c r (y ∷ l) h =
    let kr = Edge-keeps r _ (effect-Edge tenant c r) in
    let ky = Edge-keeps y _ (effect-Edge tenant c y) in
    (rw (kr.0, kr.1, ky.0, ky.1) h.0, Fresh-effect tenant c r l h.1)

pub effect-Unique :
    (tenant : String) (c : Call) (l : List Reservation)
    → Unique l
    → Unique (map (effect tenant c) l)
effect-Unique tenant c [] u = tt
effect-Unique tenant c (r ∷ l) u = (Fresh-effect tenant c r l u.0, effect-Unique tenant c l u.1)

-- An expired reservation is final: whatever transitions are asked for afterwards, in whatever order
-- and by whichever tenants, the row is still in the table, exactly as it was.
pub perform_all-expired :
    (cs : List (String × Call)) (db : Db) (r : Reservation)
    → Unique db.reservations
    → r.state ≡ ReservationState.expired
    → Memᴰ r db.reservations
    → Memᴰ r (perform_all cs db).reservations
unfolding perform_all
perform_all-expired [] db r u h m = m
perform_all-expired ((tenant, c) ∷ cs) db r u h m =
    subst (λ (d : Db). Memᴰ r (perform_all cs d).reservations) (sym (perform-effect tenant c db u))
      (perform_all-expired cs (with_rows db (map (effect tenant c) db.reservations)) r
        (effect-Unique tenant c db.reservations u) h (mem-map-Edge tenant c r db.reservations h m))
