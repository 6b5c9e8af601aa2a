-- ===== src/Base/Results.antt =====
-- Errors as values: what a function that throws returns.
use mathlib.Core.Path.{◌≡◌, refl}
use mathlib.Core.Bool.{Bool, true, false}
use mathlib.Core.Option.{Option, none, some}

pub data Result {ε α} (Error : Type ε) (Value : Type α) : Type (ε ⊔ α) where
  err : Error → Result Error Value
  ok : Value → Result Error Value

module _ {ε} {Error : Type ε} where
  infixl 5 ◌>>=◌ ◌>>◌
  abbrev pub ◌>>=◌ {α β} :
      {Value : Type α} {Next : Type β}
      → Result Error Value
      → (Value → Result Error Next)
      → Result Error Next
  err reason >>= continue = err reason
  ok value >>= continue = continue value

  abbrev pub ◌>>◌ {β} :
      {Next : Type β} → Result Error (Unit {0}) → Result Error Next → Result Error Next
  tested >> next = tested >>= λ _. next

  abbrev pub guard : Bool → Error → Result Error (Unit {0})
  guard passed reason = elim passed [ true ↦ ok tt | false ↦ err reason ]

  abbrev pub or_fail {α} : {Value : Type α} → Option Value → Error → Result Error Value
  or_fail found reason = elim found [ some value ↦ ok value | none ↦ err reason ]

  -- A chain that succeeds has succeeded at its first link.
  pub >>=-eq-ok {α β} :
      {Value : Type α} {Next : Type β} (first : Result Error Value)
      (continue : Value → Result Error Next) {last : Next}
      → (first >>= continue) ≡ ok last
      → (value : Value) × (first ≡ ok value) × (continue value ≡ ok last)
  >>=-eq-ok (err reason) continue h = cc
  >>=-eq-ok (ok value) continue h = (value, refl, h)
