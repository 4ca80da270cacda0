-- ===== src/Base/Results.antt =====
-- Results of code that throws, and the values of the source's language as validators read them.
use Prim.Native.Nat.{ℕ}
use Prim.Native.String.{String}
use mathlib.Core.Bool.{Bool}
use mathlib.Core.Path.{◌≡◌, refl}

mutual
  -- A value: an object is read by the names of its fields, and a field that it lacks is `undefined`.
  pub data Value : Type 0 where
    undefined null : Value
    boolean : Bool → Value
    number : ℕ → Value
    text : String → Value
    array : Values → Value
    object : (String → Value) → Value

  pub data Values : Type 0 where
    none_left : Values
    value_then : Value → Values → Values

-- A call of the source that throws gives the `err` of what it throws.
pub data Result {ℓ κ} (E : Type ℓ) (A : Type κ) : Type (ℓ ⊔ κ) where
  err : E → Result E A
  ok : A → Result E A

-- The rest of a block does not run after a throw; `>>` is for calls that are made for their throws.
infixl 5 ◌>>=◌ ◌>>◌
abbrev pub ◌>>=◌ {ℓ} : {E A B : Type ℓ} → Result E A → (A → Result E B) → Result E B
err thrown >>= rest = err thrown
ok value >>= rest = rest value

abbrev pub ◌>>◌ {ℓ} : {E A B : Type ℓ} → Result E A → Result E B → Result E B
call >> rest = call >>= λ _. rest

-- A block that returns has gone past its first call.
pub >>=-eq-ok {ℓ} :
    {E A B : Type ℓ} (call : Result E A) (rest : A → Result E B) {returned : B}
    → (call >>= rest) ≡ ok returned
    → (value : A) × (call ≡ ok value) × (rest value ≡ ok returned)
>>=-eq-ok (err thrown) rest h = cc
>>=-eq-ok (ok value) rest h = (value, refl, h)
