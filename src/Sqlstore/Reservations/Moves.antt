-- ===== src/Sqlstore/Reservations/Moves.antt =====
-- The transitions of decay.go seen from one row of the table.
use yaadegar.Base.{String, Bool, false, ◌≡◌, refl, List, [], ◌∷◌, arith, Option-cases}
use yaadegar.Base.Table.{All, select_row, update_where}
use yaadegar.Storage.{Result, ok, err, Reservation, ReservationState, ReservationState-discrete}
use yaadegar.Sqlstore.Db.{Db}
use yaadegar.Sqlstore.Reservations.{row, transition_state}

-- No row of the list has the key of `r`.
abbrev pub Fresh : Reservation → List Reservation → Type 0
Fresh r = All (λ y. row r.tenant_id r.id y ≡ false)

-- No two rows share a key, as PRIMARY KEY (id) has it.
abbrev pub Unique : List Reservation → Type 0
Unique [] = Unit {0}
Unique (r ∷ rs) = Fresh r rs × Unique rs

pub update_where-Fresh :
    (r : Reservation) (f : Reservation → Reservation) (l : List Reservation)
    → Fresh r l
    → update_where (row r.tenant_id r.id) f l ≡ l
unfolding update_where
update_where-Fresh r f [] h = refl
update_where-Fresh r f (y ∷ l) h = ground (arith, update_where-Fresh r f l h.1)

-- The row after a transition out of `from`.
abbrev pub moved : ReservationState → (Reservation → Reservation) → Reservation → Reservation
moved from update r = elim (ReservationState-discrete r.state from) [ yes _ ↦ update r | no _ ↦ r ]

-- The database that a transition leaves, where a failure leaves it alone.
abbrev pub left : Db → Result (Bool × Db) → Db
left db (ok (b, db')) = db'
left db (err e) = db

abbrev pub with_rows : Db → List Reservation → Db
with_rows db l = record db { reservations = l }

module _ (from : ReservationState) (update : Reservation → Reservation) (db : Db) where
  -- At the head of the table, with its key nowhere else.
  pub transition-head :
      (r : Reservation) (l : List Reservation)
      → Fresh r l
      → left
          (with_rows db (r ∷ l))
          (transition_state r.tenant_id r.id from update (with_rows db (r ∷ l)))
        ≡ with_rows db (moved from update r ∷ l)
  unfolding transition_state select_row update_where
  transition-head r l h = ground (arith, update_where-Fresh r update l h)

  -- A row in front, with another key, is left alone.
  pub transition-tail :
      (tenant id : String) (r : Reservation)
      → row tenant id r ≡ false
      → let db' = with_rows db (r ∷ db.reservations) in
        let moved_db = left db (transition_state tenant id from update db) in
        left db' (transition_state tenant id from update db')
        ≡ with_rows moved_db (r ∷ moved_db.reservations)
  unfolding transition_state select_row update_where
  transition-tail tenant id r h =
      ground (arith, Option-cases (select_row (row tenant id) db.reservations))
