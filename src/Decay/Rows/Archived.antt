-- ===== src/Decay/Rows/Archived.antt =====
-- What the sweep of internal/decay/decay.go does about the items that were archived.
use yaadegar.Base.{
  Bool, true, false, ◌≡◌, refl, List, [], ◌∷◌, Option, none, some, arith, is_some, Bool-cases,
  Option-cases, inl, inr,
}
use yaadegar.Base.Table.{select_row, select_where, delete_where}
use yaadegar.Storage.{GiftList, Item, Reservation}
use yaadegar.Sqlstore.Db.{item_row}
use yaadegar.Sqlstore.Reservations.Moves.{Unique, Fresh}
use yaadegar.World.{World}
use yaadegar.Decay.{Config, Env, candidate, candidate_on, join_list, join_item, sweep}
use yaadegar.Decay.Rows.{Outcome, swept_as, swept}
use yaadegar.Decay.Rows.Sweep.{rows_after, mail, sweep_rows}
use yaadegar.Decay.Rows.Outcomes.{Pass, rests, lapses, asks, swept-Pass}

abbrev pub is_archived : Option Item → Bool
is_archived none = false
is_archived (some i) = is_some i.archived_at

-- The reservation is of an item that was archived.
abbrev pub on_archived : List Item → Reservation → Bool
on_archived items r = is_archived (select_row (item_row r.tenant_id r.item_id) items)

-- The world without these reservations.
abbrev pub without_archived : World → World
without_archived w = record w {
  db = record w.db { reservations = delete_where (on_archived w.db.items) w.db.reservations };
}

Fresh-delete :
    (p : Reservation → Bool) (r : Reservation) (rs : List Reservation)
    → Fresh r rs
    → Fresh r (delete_where p rs)
unfolding delete_where
Fresh-delete p r [] h = tt
Fresh-delete p r (x ∷ rs) h = ground (arith, Fresh-delete p r rs)

Unique-delete :
    (p : Reservation → Bool) (rs : List Reservation) → Unique rs → Unique (delete_where p rs)
unfolding delete_where
Unique-delete p [] u = tt
Unique-delete p (r ∷ rs) u = ground (arith, Fresh-delete p r rs, Unique-delete p rs)

module _ (cfg : Config) (env : Env) (lists : List GiftList) (items : List Item) where
  swept-archived :
      (r : Reservation) → on_archived items r ≡ true → swept cfg env lists items r ≡ (r, [])
  unfolding swept swept_as candidate join_item join_list candidate_on
  swept-archived r h = elim (Option-cases (select_row (item_row r.tenant_id r.item_id) items)) [
    | inl e ↦ absurd (ground arith)
    | inr (i, e) ↦ rw e (ground arith)
  ]

  Pass-item :
      (r : Reservation) (o : Outcome)
      → Pass cfg env r o
      → (o.0.tenant_id ≡ r.tenant_id) × (o.0.item_id ≡ r.item_id)
  Pass-item r o (rests e) = ground arith
  Pass-item r o (lapses s e) = ground arith
  Pass-item r o (asks k q m s g a e) = ground arith

  on_archived-swept :
      (r : Reservation) → on_archived items (swept cfg env lists items r).0 ≡ on_archived items r
  on_archived-swept r =
      let same = Pass-item r _ (swept-Pass cfg env lists items r) in rw (same.0, same.1) refl

  rows-archived :
      (rs : List Reservation)
      → select_where (on_archived items) (rows_after cfg env lists items rs)
        ≡ select_where (on_archived items) rs
  unfolding select_where
  rows-archived [] = refl
  rows-archived (r ∷ rs) = elim (Bool-cases (on_archived items r)) [
    | inl e ↦ rw (on_archived-swept r, e, swept-archived r e, rows-archived rs) refl
    | inr e ↦ rw (on_archived-swept r, e) (rows-archived rs)
  ]

  mail-archived :
      (rs : List Reservation)
      → mail cfg env lists items rs ≡ mail cfg env lists items (delete_where (on_archived items) rs)
  unfolding delete_where
  mail-archived [] = refl
  mail-archived (r ∷ rs) = elim (Bool-cases (on_archived items r)) [
    | inl e ↦ rw (e, swept-archived r e) (mail-archived rs)
    | inr e ↦ rw (e, mail-archived rs) refl
  ]

-- The sweep keeps the reservations whose item is archived, as they are, however old they are, and the
-- messages it sends are those that it would send if there were no such reservation. The condition is
-- that no two reservations have one key.
pub sweep-archived :
    (cfg : Config) (env : Env) (w : World)
    → Unique w.db.reservations
    → (select_where (on_archived w.db.items) (sweep cfg env w).db.reservations
        ≡ select_where (on_archived w.db.items) w.db.reservations)
      × ((sweep cfg env w).sent ≡ (sweep cfg env (without_archived w)).sent)
sweep-archived cfg env w u =
    let fewer = Unique-delete (on_archived w.db.items) w.db.reservations u in
    rw (sweep_rows cfg env w u, sweep_rows cfg env (without_archived w) fewer)
      (
        rows-archived cfg env w.db.lists w.db.items w.db.reservations,
        rw (mail-archived cfg env w.db.lists w.db.items w.db.reservations) refl,
      )
