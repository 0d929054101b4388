-- ===== src/Vm/Returns.antt =====
-- What an outcome of the virtual machine satisfies: its result a predicate, and it does not run out
-- of fuel.
use mathlib.Core.Path.{subst}
use pomagma.Prelude.{Option, some, none, ◌≢◌, ◌≡◌, refl}
use pomagma.Vm.{Outcome, ok, err, Fault, no_fuel, missing, ◌>>=◌, or_fault}

pub data Returns {ℓ κ} {A : Type ℓ} (Q : A → Type κ) : Outcome A → Type (ℓ ⊔ κ) where
  good : (a : A) → Q a → Returns Q (ok a)
  fault : (e : Fault) → e ≢ no_fuel → Returns Q (err e)

module _ {ℓ ℓ' κ κ'} {A : Type ℓ} {B : Type ℓ'} (Q : A → Type κ) {R : B → Type κ'} where
  pub bind :
      {m : Outcome A} {f : A → Outcome B}
      → Returns Q m
      → ((a : A) → Q a → Returns R (f a))
      → Returns R (m >>= f)
  bind (good a q) next = next a q
  bind (fault e ne) next = fault e ne

module _ {ℓ} {A : Type ℓ} where
  pub or_missing : (o : Option A) → Returns (λ a. o ≡ some a) (or_fault missing o)
  or_missing none = fault missing (cc)
  or_missing (some a) = good a refl

  -- A part of the model that has fuel enough
  pub or_no_fuel : (o : Option A) → o ≢ none → Returns (λ a. o ≡ some a) (or_fault no_fuel o)
  or_no_fuel none ne = absurd (ne refl)
  or_no_fuel (some a) ne = good a refl

  pub weaken {κ κ'} :
      {Q : A → Type κ} {R : A → Type κ'} {m : Outcome A}
      → ((a : A) → Q a → R a)
      → Returns Q m
      → Returns R m
  weaken f (good a q) = good a (f a q)
  weaken f (fault e ne) = fault e ne

  pub Returns-ne {κ} : {Q : A → Type κ} {m : Outcome A} → Returns Q m → m ≢ err no_fuel
  Returns-ne (good a q) e = cc
  Returns-ne (fault x ne) e = ne (cc)

  pub Returns-ok {κ} : {Q : A → Type κ} {m : Outcome A} (a : A) → Returns Q m → m ≡ ok a → Q a
  Returns-ok {Q} a (good b q) e = subst Q (cc) q
  Returns-ok a (fault x ne) e = cc
