-- ===== src/World.antt =====
-- What the handlers and the sweeps act on: the database, and the messages that the mail server took;
-- and the actions on it that a handler is a sequence of.
use yaadegar.Base.{◌≡◌, refl, ◌⊎◌, inl, inr, Bool, true, false, List}
use yaadegar.Storage.{Result, ok, err, Error}
use yaadegar.Email.{Message}
use yaadegar.Sqlstore.Db.{Db, Op}

pub record World : Type 0 where
  pub db : Db
  pub sent : List Message

-- An action ends with a value, or stops early with a reply or an error. What it wrote before it
-- stopped stays written, since each call of the store is a transaction of its own.
pub data Flow (E A : Type 0) : Type 0 where
  stop : E → Flow E A
  value : A → Flow E A

pub Flow-cases :
    {E A : Type 0} (r : Flow E A × World)
    → ((e : E) × (w : World) × (r ≡ (stop e, w))) ⊎ ((a : A) × (w : World) × (r ≡ (value a, w)))
Flow-cases (stop e, w) = inl (e, w, refl)
Flow-cases (value a, w) = inr (a, w, refl)

abbrev pub Act : Type 0 → Type 0 → Type 0
Act E A = World → Flow E A × World

module _ {E A : Type 0} where
  abbrev pub give : A → Act E A
  give a w = (value a, w)

  abbrev pub stop_with : E → Act E A
  stop_with e w = (stop e, w)

  -- A query, and a write; `on_err` says what an error of the store is to the caller.
  abbrev pub query : (Error → E) → (Db → Result A) → Act E A
  query on_err read w = elim (read w.db) [ ok a ↦ (value a, w) | err e ↦ (stop (on_err e), w) ]

  abbrev pub write : (Error → E) → Op A → Act E A
  write on_err op w = elim (op w.db) [
    | ok (a, db) ↦ (value a, record w { db = db })
    | err e ↦ (stop (on_err e), w)
  ]

abbrev pub stop_if : {E : Type 0} → Bool → E → Act E (Unit {0})
stop_if true e w = (stop e, w)
stop_if false e w = (value tt, w)

-- A step that cannot fail.
abbrev pub change : {E : Type 0} → (World → World) → Act E (Unit {0})
change f w = (value tt, f w)

infixl 5 ◌>>=◌ ◌>>◌
abbrev pub ◌>>=◌ : {E A B : Type 0} → Act E A → (A → Act E B) → Act E B
◌>>=◌ m f w = let (r, w') = m w in elim r [ stop e ↦ (stop e, w') | value a ↦ f a w' ]

abbrev pub ◌>>◌ : {E B : Type 0} → Act E (Unit {0}) → Act E B → Act E B
m >> rest = m >>= λ _. rest

-- The same action, with its error as another one.
abbrev pub recast : {E F A : Type 0} → (E → F) → Act E A → Act F A
recast f m w = let (r, w') = m w in elim r [ stop e ↦ (stop (f e), w') | value a ↦ (value a, w') ]
