-- ===== src/Base/Text.antt =====
-- Branching, and the equality of strings that the Go code writes `==`. It is a decision, so that a
-- proof which splits on the test has the equation or its negation at hand.
use Prim.Native.Nat.{ℕ, compare, Ordering}
use Prim.Native.String.{String, ◌++◌ as append}
use mathlib.Core.Path.{◌≡◌, refl}
use mathlib.Core.Logic.{◌⊎◌, inl, inr}
use mathlib.Core.Bool.{Bool, true, false}
use mathlib.Core.Option.{Option, none, some}
use text.Mathlib.Text.{◌==◌ as text_eq}
use text.Mathlib.TextEquality.{eq_iff}

infix 1 if◌then◌else◌
abbrev pub if◌then◌else◌ {ℓ} : {A : Type ℓ} → Bool → A → A → A
if true then x else y = x
if false then x else y = y

decide_eq : (a b : String) (t : Bool) → text_eq a b ≡ t → Dec (a ≡ b)
decide_eq a b true e = yes ((eq_iff a b).0 e)
decide_eq a b false e = no (λ p. cc ((eq_iff a b).1 p))

unfoldable pub string_discrete : Discrete String
unfolding decide_eq
string_discrete a b = decide_eq a b (text_eq a b) refl

infix 50 ◌==◌
abbrev pub ◌==◌ : String → String → Bool
a == b = elim (string_discrete a b) [ yes _ ↦ true | no _ ↦ false ]

-- Go's test of an optional string against a value: `p != nil && *p == s`.
abbrev pub points_to : Option String → String → Bool
points_to none s = false
points_to (some a) s = a == s

abbrev pub is_some {ℓ} : {A : Type ℓ} → Option A → Bool
is_some none = false
is_some (some a) = true

abbrev pub ltb : ℕ → ℕ → Bool
ltb a b = elim (compare a b) [ Ordering.lt ↦ true | _ ↦ false ]

abbrev pub leb : ℕ → ℕ → Bool
leb a b = elim (compare a b) [ Ordering.gt ↦ false | _ ↦ true ]

pub Bool-cases : (b : Bool) → (b ≡ true) ⊎ (b ≡ false)
Bool-cases true = inl refl
Bool-cases false = inr refl

pub Option-cases {ℓ} : {A : Type ℓ} (o : Option A) → (o ≡ none) ⊎ ((a : A) × (o ≡ some a))
Option-cases none = inl refl
Option-cases (some a) = inr (a, refl)

-- `s + t`
abbrev pub concat : String → String → String
concat s t = append s t
