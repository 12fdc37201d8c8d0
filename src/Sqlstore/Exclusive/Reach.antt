-- ===== src/Sqlstore/Exclusive/Reach.antt =====
-- The store of internal/storage/sqlstore along a history of operations on reservations, pledges, items
-- and matches.
use yaadegar.Base.{Option, String, Bool, false, ◌≡◌, inl, inr, List, [], ◌∷◌, arith, Bool-cases}
use yaadegar.Base.Int.{ℤ}
use yaadegar.Base.Table.{All, update_where, delete_where}
use yaadegar.Base.Table.Count.{select_row-none}
use yaadegar.Storage.{ok, Time, Reservation, Contribution, ContributionStatus, Match}
use yaadegar.Sqlstore.Db.{Db}
use yaadegar.Sqlstore.Reservations
use yaadegar.Sqlstore.Reservations.{live_on}
use yaadegar.Sqlstore.Reservations.Moves.{Unique, Fresh, left}
use yaadegar.Sqlstore.Reservations.Lifecycle.{Call, perform, perform-effect, effect-Unique}
use yaadegar.Sqlstore.Contributions
use yaadegar.Sqlstore.Matches.{expire_if_proposed, confirm_contribution, confirm_row, Confirmed}
use yaadegar.Sqlstore.Exclusive.Writes.{
  ReopensNone, update-reservations, update-Lessens, token-reservations, token-Lessens,
  confirm-reservations, confirm-Lessens,
}
use yaadegar.Sqlstore.Items
use yaadegar.Sqlstore.Exclusive.{
  Exclusive, reserve_ok, pledge_ok, reserve-Exclusive, pledge-Exclusive, Lessens-Exclusive,
  transition-Lessens, release_ok, release-Lessens, withdraw_ok, withdraw-Lessens, unarchive_ok,
  unarchive-Lessens, archive_ok, dissolve_ok, dissolve-Lessens,
}

-- One committed operation, by any tenant and with any arguments. `Update` and `ConfirmContribution`
-- are taken where they reopen no pledge that was closed; `elsewhere` stands for the operations that
-- write neither reservations nor pledges. The unguarded `Create` of reservations.go and of
-- contributions.go, which nothing but a test calls, is left out.
pub data Step (db db' : Db) : Type 0 where
  reserves :
      (tenant new_id : String) (now : Time) (res r : Reservation) (wanted : ℤ)
      → Reservations.create_within_capacity tenant new_id now res wanted db ≡ ok (r, db')
      → Step db db'
  pledges :
      (tenant new_id : String) (now : Time) (c r : Contribution) (price : ℤ)
      → Contributions.create_within_capacity tenant new_id now c price db ≡ ok (r, db')
      → Step db db'
  transitions : (tenant : String) (c : Call) → db' ≡ left db (perform tenant c db) → Step db db'
  releases : (tenant id : String) → Reservations.delete tenant id db ≡ ok (tt, db') → Step db db'
  withdraws : (tenant id : String) → Contributions.delete tenant id db ≡ ok (tt, db') → Step db db'
  archives :
      (tenant id : String) (at : Time) (b : Bool)
      → Items.archive tenant id at db ≡ ok (b, db')
      → Step db db'
  unarchives :
      (tenant id : String) (at : Time) (b : Bool)
      → Items.unarchive tenant id at db ≡ ok (b, db')
      → Step db db'
  dissolves :
      (tenant item_id match_id : String) (b : Bool)
      → expire_if_proposed tenant item_id match_id db ≡ ok (b, db')
      → Step db db'
  updates :
      (tenant : String) (c c' : Contribution)
      → Contributions.update tenant c db ≡ ok (c', db')
      → ReopensNone (Contributions.row tenant c.id) c.status db.contributions
      → Step db db'
  sets_token :
      (tenant id hash : String) (expires : Option Time)
      → Contributions.set_match_action_token tenant id hash expires db ≡ ok (tt, db')
      → Step db db'
  confirms :
      (tenant item_id match_id cid : String) (m : Match) (r : Confirmed)
      → confirm_contribution tenant item_id match_id cid db ≡ ok ((m, r), db')
      → ReopensNone (confirm_row tenant match_id cid) ContributionStatus.confirmed db.contributions
      → Step db db'
  elsewhere :
      db'.reservations ≡ db.reservations → db'.contributions ≡ db.contributions → Step db db'

pub data Reach (start : Db) : Db → Type 0 where
  here : Reach start start
  next : {db db' : Db} → Reach start db → Step db db' → Reach start db'

pub record Inv (db : Db) : Type 0 where
  pub exclusive : Exclusive db
  pub unique : Unique db.reservations

Fresh-insert :
    (r : Reservation) (l : List Reservation)
    → All (λ x. Reservations.clashes r x ≡ false) l
    → Fresh r l
Fresh-insert r [] h = tt
Fresh-insert r (x ∷ l) h = ground (arith, Fresh-insert r l)

Fresh-delete :
    (tenant id : String) (r : Reservation) (l : List Reservation)
    → Fresh r l
    → Fresh r (delete_where (Reservations.row tenant id) l)
unfolding delete_where
Fresh-delete tenant id r [] h = tt
Fresh-delete tenant id r (x ∷ l) h = ground (arith, Fresh-delete tenant id r l)

Unique-delete :
    (tenant id : String) (l : List Reservation)
    → Unique l
    → Unique (delete_where (Reservations.row tenant id) l)
unfolding delete_where
Unique-delete tenant id [] u = tt
Unique-delete tenant id (r ∷ l) u =
    ground (arith, Fresh-delete tenant id r l, Unique-delete tenant id l)

module _ (tenant id : String) (at : Time) where
  abbrev restarted : List Reservation → List Reservation
  restarted = update_where (live_on tenant id) (Items.restart_clock at)

  Fresh-restart : (r : Reservation) (l : List Reservation) → Fresh r l → Fresh r (restarted l)
  unfolding update_where
  Fresh-restart r [] h = tt
  Fresh-restart r (x ∷ l) h = ground (arith, Fresh-restart r l)

  Unique-restart : (l : List Reservation) → Unique l → Unique (restarted l)
  unfolding update_where
  Unique-restart [] u = tt
  Unique-restart (r ∷ l) u =
      let rest : Fresh r (restarted l) × Unique (restarted l) =
        (Fresh-restart r l u.0, Unique-restart l u.1) in
      elim (Bool-cases (live_on tenant id r)) [ inl e ↦ rw e rest | inr e ↦ rw e rest ]

-- Each of these operations keeps the two tracks apart, and the keys distinct.
pub Step-Inv : (db db' : Db) → Step db db' → Inv db → Inv db'
Step-Inv db db' (reserves t n now res r w h) v =
    let done = reserve_ok t n now res r w db db' h in
    record {
      exclusive = reserve-Exclusive t n now res r w db db' v.exclusive h;
      unique = rw done.3 (Fresh-insert r db.reservations (select_row-none _ _ done.2), v.unique);
    }
Step-Inv db db' (pledges t n now c r p h) v = record {
  exclusive = pledge-Exclusive t n now c r p db db' v.exclusive h;
  unique = rw ((pledge_ok t n now c r p db db' h).2) v.unique;
}
Step-Inv db db' (transitions t c e) v = rw e (record {
  exclusive =
      Lessens-Exclusive db (left db (perform t c db)) (transition-Lessens t c db v.unique)
        v.exclusive;
  unique = rw (perform-effect t c db v.unique) (effect-Unique t c db.reservations v.unique);
})
Step-Inv db db' (releases t id h) v = record {
  exclusive = Lessens-Exclusive db db' (release-Lessens t id db db' h) v.exclusive;
  unique = rw (release_ok t id db db' h) (Unique-delete t id db.reservations v.unique);
}
Step-Inv db db' (withdraws t id h) v = record {
  exclusive = Lessens-Exclusive db db' (withdraw-Lessens t id db db' h) v.exclusive;
  unique = rw ((withdraw_ok t id db db' h).0) v.unique;
}
Step-Inv db db' (archives t id at b h) v =
    let done = archive_ok t id at b db db' h in
    record { exclusive = λ t i. rw (done.0, done.1) (v.exclusive t i); unique = rw done.1 v.unique }
Step-Inv db db' (unarchives t id at b h) v = record {
  exclusive = Lessens-Exclusive db db' (unarchive-Lessens t id at b db db' h) v.exclusive;
  unique = elim ((unarchive_ok t id at b db db' h).1) [
    | inl e ↦ rw e v.unique
    | inr e ↦ rw e (Unique-restart t id at db.reservations v.unique)
  ];
}
Step-Inv db db' (dissolves t i m b h) v = record {
  exclusive = Lessens-Exclusive db db' (dissolve-Lessens t i m b db db' h) v.exclusive;
  unique = rw ((dissolve_ok t i m b db db' h).0) v.unique;
}
Step-Inv db db' (updates t c c' h closed) v = record {
  exclusive = Lessens-Exclusive db db' (update-Lessens t c c' db db' h closed) v.exclusive;
  unique = rw (update-reservations t c c' db db' h) v.unique;
}
Step-Inv db db' (sets_token t id hash expires h) v = record {
  exclusive = Lessens-Exclusive db db' (token-Lessens t id hash expires db db' h) v.exclusive;
  unique = rw (token-reservations t id hash expires db db' h) v.unique;
}
Step-Inv db db' (confirms t i m cid mt r h closed) v = record {
  exclusive = Lessens-Exclusive db db' (confirm-Lessens t i m cid mt r db db' h closed) v.exclusive;
  unique = rw (confirm-reservations t i m cid mt r db db' h) v.unique;
}
Step-Inv db db' (elsewhere rs cs) v = record {
  exclusive = λ t i. rw (rs, cs) (v.exclusive t i);
  unique = rw rs v.unique;
}
