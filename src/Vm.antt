-- ===== src/Vm.antt =====
-- pomagma/atlas/program_fwd.hpp and vm.hpp: the state of the virtual machine, and the signature of
-- tables on which it runs as an interface. The machine is a template, so the tables are a parameter.
pub mod Returns
pub mod Narrow
pub mod Ends
pub mod Rounds
pub mod Fold
pub mod Loop
pub mod Steps
pub mod Functions
pub mod Execute
pub mod Pops
pub mod Sound
pub mod Values
pub mod Total
pub mod Examples
use pomagma.Prelude.{ℕ, ◌+◌, List, [], ◌∷◌, Bool, Option, none, some, get_or, set, replicate}

-- A bit set of a table, to whose words a register points. Its content is looked up when it is read.
pub data SetRef : Type 0 where
  null : SetRef
  support : SetRef
  unary : ℕ → SetRef
  binary_lx binary_rx : ℕ → ℕ → SetRef
  injective inverse : ℕ → SetRef
  function_lx function_rx : ℕ → ℕ → SetRef
  symmetric_lx : ℕ → ℕ → SetRef

-- A relation with the obs that it is asked about
pub data Fact : Type 0 where
  unary_fact : ℕ → ℕ → Fact
  binary_fact : ℕ → ℕ → ℕ → Fact

-- A function with its arguments
pub data App : Type 0 where
  nullary_app : ℕ → App
  injective_app : ℕ → ℕ → App
  binary_app : ℕ → ℕ → ℕ → App
  symmetric_app : ℕ → ℕ → ℕ → App

-- Why the machine stops: it reads behind the program, it meets PADDING or an instruction that these
-- tables do not support, there is no table of that number, or, of the model only, it runs out of
-- fuel: there its own loops, its iterators or the tables would still run.
pub data Fault : Type 0 where
  overrun padding_executed unsupported missing no_fuel : Fault

pub data Outcome {ℓ} (A : Type ℓ) : Type ℓ where
  ok : A → Outcome A
  err : Fault → Outcome A

infixl 5 ◌>>=◌
abbrev pub ◌>>=◌ {ℓ κ} : {A : Type ℓ} {B : Type κ} → Outcome A → (A → Outcome B) → Outcome B
ok a >>= f = f a
err e >>= f = err e

abbrev pub or_fault {ℓ} : {A : Type ℓ} → Fault → Option A → Outcome A
or_fault e none = err e
or_fault e (some a) = ok a

-- The tables, named by their numbers in the arrays of the machine. `none` of a query is a number
-- without a table. `find` gives 0 where the function has no value.
pub record Structure {ℓ} (S : Type ℓ) : Type ℓ where
  pub word_dim : ℕ
  pub words : S → SetRef → Option (List ℕ)
  pub holds : S → Fact → Option Bool
  pub find : S → App → Option ℕ
  pub inverse_find : S → ℕ → ℕ → Option ℕ
  pub insert_fact : S → Fact → Outcome S
  pub insert : S → App → ℕ → Outcome S
  pub ensure_equal : S → ℕ → ℕ → Outcome S

-- The bytes from an instruction on
abbrev pub Program : Type 0
Program = List ℕ

pub record Context : Type 0 where
  pub obs : List ℕ
  pub sets : List SetRef
  pub block : ℕ

-- The granularity of FOR_BLOCK and IF_BLOCK
abbrev pub block_size : ℕ
block_size = 64

-- `clear`
unfoldable pub cleared : Context
cleared = record { obs = replicate 256 0; sets = replicate 256 null; block = 0 }

abbrev pub ob_at : Context → ℕ → ℕ
ob_at c reg = get_or c.obs reg 0

abbrev pub set_ob : Context → ℕ → ℕ → Context
set_ob c reg ob = record c { obs = set c.obs reg ob }

abbrev pub set_at : Context → ℕ → SetRef
set_at c reg = get_or c.sets reg null

abbrev pub set_set : Context → ℕ → SetRef → Context
set_set c reg ref = record c { sets = set c.sets reg ref }

unfoldable pub pop_arg : Program → Outcome (ℕ × Program)
pop_arg [] = err overrun
pop_arg (arg ∷ p) = ok (arg, p)

-- `pop_ob`, for reading
unfoldable pub pop_ob : Program → Context → Outcome (ℕ × Program)
unfolding pop_arg
pop_ob p c = do (reg, p1) ← pop_arg p; ok (ob_at c reg, p1)

-- `pop_set`, for reading
unfoldable pub pop_set : Program → Context → Outcome (SetRef × Program)
unfolding pop_arg
pop_set p c = do (reg, p1) ← pop_arg p; ok (set_at c reg, p1)
