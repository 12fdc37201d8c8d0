-- ===== src/Base/Table/Count.antt =====
-- What the statements of `Base.Table` do to the number of rows that satisfy a condition.
use mathlib.Core.Path.{◌≡◌, refl}
use mathlib.Core.Bool.{Bool, true, false}
use mathlib.Core.Option.{none, some}
use yaadegar.Base.Text.{if◌then◌else◌}
use mathlib.Core.List.{List, [], ◌∷◌, map}
use native.Mathlib.Omega.{arith}
use yaadegar.Base.Table.{select_row, select_where, count_where, update_where, delete_where, All}

module _ {ℓ} {A : Type ℓ} where
  -- A change under which no row begins to satisfy `q`.
  abbrev pub Weakens : (A → Bool) → (A → A) → Type ℓ
  Weakens q f = (x : A) → q (f x) ≡ true → q x ≡ true

  pub count-map_zero :
      (q : A → Bool) (f : A → A) (l : List A)
      → Weakens q f
      → count_where q l ≡ 0
      → count_where q (map f l) ≡ 0
  unfolding count_where
  count-map_zero q f [] h z = refl
  count-map_zero q f (x ∷ l) h z = ground (arith, h x, count-map_zero q f l h)

  pub count-update_zero :
      (p q : A → Bool) (f : A → A) (l : List A)
      → ((x : A) → p x ≡ true → q (f x) ≡ true → q x ≡ true)
      → count_where q l ≡ 0
      → count_where q (update_where p f l) ≡ 0
  unfolding count_where update_where
  count-update_zero p q f [] h z = refl
  count-update_zero p q f (x ∷ l) h z = ground (arith, h x, count-update_zero p q f l h)

  pub count-delete_zero :
      (p q : A → Bool) (l : List A) → count_where q l ≡ 0 → count_where q (delete_where p l) ≡ 0
  unfolding count_where delete_where
  count-delete_zero p q [] z = refl
  count-delete_zero p q (x ∷ l) z = ground (arith, count-delete_zero p q l)

  pub select_row-none :
      (p : A → Bool) (l : List A) → select_row p l ≡ none → All (λ x. p x ≡ false) l
  unfolding select_row
  select_row-none p [] h = tt
  select_row-none p (x ∷ l) h = ground (arith, select_row-none p l)

-- The first row that satisfies `p`, after an update that does not change who satisfies it.
module _ {ℓ} {A : Type ℓ} where
  pub select_row-update :
      (p q : A → Bool) (f : A → A) (l : List A) (x : A)
      → ((y : A) → p (f y) ≡ p y)
      → select_row p l ≡ some x
      → select_row p (update_where q f l) ≡ some (if q x then f x else x)
  unfolding select_row update_where
  select_row-update p q f [] x keeps h = absurd (ground arith)
  select_row-update p q f (y ∷ l) x keeps h =
      ground (arith, keeps y, select_row-update p q f l x keeps)

  pub select_row-holds : (p : A → Bool) (l : List A) (x : A) → select_row p l ≡ some x → p x ≡ true
  unfolding select_row
  select_row-holds p [] x h = absurd (ground arith)
  select_row-holds p (y ∷ l) x h = ground (arith, select_row-holds p l x)

  -- An update after which the rows it hits satisfy `q` no more, where `q` implies that they are hit.
  pub count-update_all :
      (p q : A → Bool) (f : A → A) (l : List A)
      → ((x : A) → p x ≡ true → q (f x) ≡ false)
      → ((x : A) → p x ≡ false → q x ≡ false)
      → count_where q (update_where p f l) ≡ 0
  unfolding count_where update_where
  count-update_all p q f [] hit miss = refl
  count-update_all p q f (x ∷ l) hit miss =
      ground (arith, hit x, miss x, count-update_all p q f l hit miss)

  -- An update of rows that do not satisfy `p`, before or after.
  pub select_row-disjoint :
      (p q : A → Bool) (f : A → A) (l : List A)
      → ((x : A) → q x ≡ true → p x ≡ false)
      → ((x : A) → p (f x) ≡ p x)
      → select_row p (update_where q f l) ≡ select_row p l
  unfolding select_row update_where
  select_row-disjoint p q f [] apart keeps = refl
  select_row-disjoint p q f (x ∷ l) apart keeps =
      ground (arith, apart x, keeps x, select_row-disjoint p q f l apart keeps)

  pub select_where-disjoint :
      (p q : A → Bool) (f : A → A) (l : List A)
      → ((x : A) → q x ≡ true → p x ≡ false)
      → ((x : A) → p (f x) ≡ p x)
      → select_where p (update_where q f l) ≡ select_where p l
  unfolding select_where update_where
  select_where-disjoint p q f [] apart keeps = refl
  select_where-disjoint p q f (x ∷ l) apart keeps =
      ground (arith, apart x, keeps x, select_where-disjoint p q f l apart keeps)

-- What an update moves: rows that satisfy `q` afterwards satisfied `q'` before and were not hit.
module _ {ℓ} {A : Type ℓ} where
  pub count-update_into :
      (p q q' : A → Bool) (f : A → A) (l : List A)
      → ((x : A) → p x ≡ true → q (f x) ≡ false)
      → ((x : A) → p x ≡ false → q x ≡ true → q' x ≡ true)
      → count_where q' l ≡ 0
      → count_where q (update_where p f l) ≡ 0
  unfolding count_where update_where
  count-update_into p q q' f [] hit miss z = refl
  count-update_into p q q' f (x ∷ l) hit miss z =
      ground (arith, hit x, miss x, count-update_into p q q' f l hit miss)

  pub count-weaken :
      (q q' : A → Bool) (l : List A)
      → ((x : A) → q x ≡ true → q' x ≡ true)
      → count_where q' l ≡ 0
      → count_where q l ≡ 0
  unfolding count_where
  count-weaken q q' [] h z = refl
  count-weaken q q' (x ∷ l) h z = ground (arith, h x, count-weaken q q' l h)

  -- A key that no row has.
  pub count-select_none :
      (p q : A → Bool) (l : List A)
      → ((x : A) → q x ≡ true → p x ≡ true)
      → select_row p l ≡ none
      → count_where q l ≡ 0
  unfolding select_row count_where
  count-select_none p q [] h e = refl
  count-select_none p q (x ∷ l) h e = ground (arith, h x, count-select_none p q l h)

  pub count-delete_all : (p : A → Bool) (l : List A) → count_where p (delete_where p l) ≡ 0
  unfolding count_where delete_where
  count-delete_all p [] = refl
  count-delete_all p (x ∷ l) = ground (arith, count-delete_all p l)

  -- A column of the rows that an update neither brings in, takes out nor changes in that column.
  pub column-update :
      {B : Type ℓ} (p q : A → Bool) (f : A → A) (g : A → B) (l : List A)
      → ((x : A) → p (f x) ≡ p x)
      → ((x : A) → g (f x) ≡ g x)
      → map g (select_where p (update_where q f l)) ≡ map g (select_where p l)
  unfolding select_where update_where
  column-update p q f g [] keeps same = refl
  column-update p q f g (x ∷ l) keeps same =
      ground (arith, keeps x, same x, column-update p q f g l keeps same)
