-- ===== src/Base/Tests.antt =====
-- Boolean tests on numbers and texts, and the conditional.
use Prim.Native.Nat.{ℕ, zero, suc, compare, Ordering}
use Prim.Native.String.{String}
use text.Mathlib.Text.{◌==◌ as str_eq}
use text.Mathlib.TextEquality.{eq_iff}
use native.Mathlib.Omega.{arith}
use mathlib.Core.Path.{◌≡◌, refl, sym, ap, ◌∙◌}
use mathlib.Core.Logic.{◌≢◌, ◌⊎◌, inl, inr}
use mathlib.Core.Bool.{Bool, true, false}
use mathlib.Core.Option.{Option, none, some}

abbrev pub ltb : ℕ → ℕ → Bool
ltb a b = elim (compare a b) [ Ordering.lt ↦ true | _ ↦ false ]

abbrev pub leb : ℕ → ℕ → Bool
leb a b = elim (compare a b) [ Ordering.gt ↦ false | _ ↦ true ]

infix 50 ◌==◌
abbrev pub ◌==◌ : ℕ → ℕ → Bool
a == b = elim (compare a b) [ Ordering.eq ↦ true | _ ↦ false ]

infix 1 if◌then◌else◌
abbrev pub if◌then◌else◌ {ℓ} : {A : Type ℓ} → Bool → A → A → A
if true then x else y = x
if false then x else y = y

pub Bool-cases : (b : Bool) → (b ≡ true) ⊎ (b ≡ false)
Bool-cases true = inl refl
Bool-cases false = inr refl

pub Option-cases {ℓ} : {A : Type ℓ} (o : Option A) → (o ≡ none) ⊎ ((a : A) × (o ≡ some a))
Option-cases none = inl refl
Option-cases (some a) = inr (a, refl)

abbrev pub is_some {ℓ} : {A : Type ℓ} → Option A → Bool
is_some none = false
is_some (some _) = true

pub ℕ-cases : (n : ℕ) → (n ≡ 0) ⊎ ((m : ℕ) × (n ≡ suc m))
ℕ-cases zero = inl refl
ℕ-cases (suc m) = inr (m, refl)

-- `o ?? d`
abbrev pub or_else {ℓ} : {A : Type ℓ} → Option A → A → A
or_else none d = d
or_else (some a) d = a

-- Texts are equal or not: `===` on strings.
str_dec_by : (s t : String) (b : Bool) → str_eq s t ≡ b → Dec (s ≡ t)
str_dec_by s t true e = yes ((eq_iff s t).0 e)
str_dec_by s t false e = no (λ p. cc (sym e ∙ (eq_iff s t).1 p))

unfoldable pub str_dec : (s t : String) → Dec (s ≡ t)
unfolding str_dec_by
str_dec s t = str_dec_by s t (str_eq s t) refl

infix 50 ◌===◌
abbrev pub ◌===◌ : String → String → Bool
s === t = elim (str_dec s t) [ yes _ ↦ true | no _ ↦ false ]

-- Keys of two columns.
unfoldable pub pair_dec {ℓ κ} :
    {A : Type ℓ} {B : Type κ} → Discrete A → Discrete B → (p q : A × B) → Dec (p ≡ q)
pair_dec da db (a, b) (c, d) = elim (da a c) [
  | yes p ↦ elim (db b d) [ yes q ↦ yes (λ i. (p i, q i)) | no q ↦ no (λ e. q (ap (λ r. r.1) e)) ]
  | no p ↦ no (λ e. p (ap (λ r. r.0) e))
]

pub ne_of_test : (a b : String) → (a === b) ≡ false → a ≢ b
ne_of_test a b h e = ground arith
