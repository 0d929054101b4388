-- ===== src/Carrier/Examples.antt =====
-- A carrier of three obs, two of them merged: tests of the operations, and the theorems there.
use mathlib.Core.Path.{subst}
use pomagma.Prelude.{
  ℕ, ◌+◌, ◌≤◌, ◌≡◌, ◌≢◌, ◌↔◌, refl, [], ◌∷◌, Bool, true, false, ◌==◌, if◌then◌else◌, Option, some,
  arith,
}
use pomagma.DenseSet.{DenseSet, contains, insert, new}
use pomagma.DenseSet.InsertOne.{FreeItem}
use pomagma.Carrier.{
  Carrier, item_dim, rep_at, max_item_dim, create, unsafe_insert, find, equal, merge, ensure_equal,
  set_and_merge, set_or_merge, unsafe_remove, ◌>>=◌,
}
use pomagma.Carrier.Root.{root}
use pomagma.Carrier.Inv.{IsValid, create-IsValid}
use pomagma.Carrier.Insert.{unsafe_insert_lem}
use pomagma.Carrier.Find.{find_lem}
use pomagma.Carrier.Merge.{Merged, merge_lem, ensure_equal_lem}
use pomagma.Carrier.Remove.{unsafe_remove_lem}
use pomagma.Carrier.Validate.{check_obs, validate_reps, validate_reps_lem}
use pomagma.Carrier.Classes.{
  SameClass, Joined, ensure_equal_classes, set_and_merge_lem, set_or_merge_lem,
}

-- Three obs of four, 3 merged into 1.
abbrev session : Option Carrier
session = do
  c₀ ← create 4
  (a, c₁) ← unsafe_insert c₀
  (b, c₂) ← unsafe_insert c₁
  (d, c₃) ← unsafe_insert c₂
  (r, c₄) ← ensure_equal c₃ 1 3
  some c₄

program : Unit {0}
unfolding create unsafe_insert pomagma.DenseSet.Scan.insert_one pomagma.DenseSet.Scan.free_word
    pomagma.DenseSet.Scan.free_bit new insert pomagma.Word.one_bit ensure_equal merge
    pomagma.Carrier.merge_loop pomagma.Carrier.link find pomagma.Carrier.find_fuel equal
    unsafe_remove pomagma.Carrier.climb pomagma.Carrier.redirect pomagma.DenseSet.remove
    pomagma.Word.zero_bit contains
program = tt

abbrev pub sample : Carrier
sample = record {
  support = record { item_dim = 4; words = 14 ∷ [] };
  item_count = 3;
  rep_count = 2;
  reps = 0 ∷ 1 ∷ 2 ∷ 1 ∷ 0 ∷ [];
  merged = 3 ∷ [];
}

session_runs : session ≡ some sample
unfolding program
session_runs = refl

sample_finds :
    (find sample 3 ≡ some 1) × (equal sample 1 2 ≡ some false) × (equal sample 3 1 ≡ some true)
unfolding program
sample_finds = (refl, refl, refl)

abbrev fresh : Carrier
fresh = record {
  support = record { item_dim = 4; words = 0 ∷ [] };
  item_count = 0;
  rep_count = 0;
  reps = 0 ∷ 0 ∷ 0 ∷ 0 ∷ 0 ∷ [];
  merged = [];
}

abbrev one : Carrier
one = record {
  support = record { item_dim = 4; words = 2 ∷ [] };
  item_count = 1;
  rep_count = 1;
  reps = 0 ∷ 1 ∷ 0 ∷ 0 ∷ 0 ∷ [];
  merged = [];
}

abbrev two : Carrier
two = record {
  support = record { item_dim = 4; words = 6 ∷ [] };
  item_count = 2;
  rep_count = 2;
  reps = 0 ∷ 1 ∷ 2 ∷ 0 ∷ 0 ∷ [];
  merged = [];
}

abbrev three : Carrier
three = record {
  support = record { item_dim = 4; words = 14 ∷ [] };
  item_count = 3;
  rep_count = 3;
  reps = 0 ∷ 1 ∷ 2 ∷ 3 ∷ 0 ∷ [];
  merged = [];
}

abbrev four : Carrier
four = record {
  support = record { item_dim = 4; words = 30 ∷ [] };
  item_count = 4;
  rep_count = 4;
  reps = 0 ∷ 1 ∷ 2 ∷ 3 ∷ 4 ∷ [];
  merged = [];
}

-- The result that a theorem gives is the one that a run gives.
same_result :
    {run : Option (ℕ × Carrier)} {a b : ℕ} {c d : Carrier}
    → run ≡ some (a, c)
    → run ≡ some (b, d)
    → IsValid c
    → IsValid d
same_result {c = c} {d = d} e f v = let p : c ≡ d = cc in subst IsValid p v

fresh-IsValid : IsValid fresh
unfolding program
fresh-IsValid =
    let (c, e, v, n) = (create-IsValid 4).0 (omega arith) in
    let f : create 4 ≡ some fresh = refl in let p : c ≡ fresh = cc in subst IsValid p v

one-IsValid : IsValid one
one-IsValid =
    let r = unsafe_insert_lem fresh-IsValid (omega arith) in
    same_result {b = 1} {d = one} r.2 (unfold program in refl) r.4

two-IsValid : IsValid two
two-IsValid =
    let r = unsafe_insert_lem one-IsValid (omega arith) in
    same_result {b = 2} {d = two} r.2 (unfold program in refl) r.4

three-IsValid : IsValid three
three-IsValid =
    let r = unsafe_insert_lem two-IsValid (omega arith) in
    same_result {b = 3} {d = three} r.2 (unfold program in refl) r.4

four-IsValid : IsValid four
four-IsValid =
    let r = unsafe_insert_lem three-IsValid (omega arith) in
    same_result {b = 4} {d = four} r.2 (unfold program in refl) r.4

in_three : (contains three.support 1 ≡ true) × (contains three.support 3 ≡ true)
unfolding program
in_three = (refl, refl)

pub sample-IsValid : IsValid sample
sample-IsValid =
    let r = ensure_equal_lem three-IsValid 1 3 in_three.0 in_three.1 in
    same_result {b = 1} {d = sample} r.2 (unfold program in refl) r.3.valid

unsafe_insert_lem_example :
    (ob : ℕ) × (c' : Carrier) × (unsafe_insert sample ≡ some (ob, c'))
    × FreeItem sample.support ob
    × IsValid c'
    × (c'.support ≡ insert sample.support ob)
    × ((i : ℕ) → root c'.reps i ≡ (if ob == i then ob else root sample.reps i))
    × (c'.item_count ≡ 3 + 1)
    × (c'.rep_count ≡ 2 + 1)
unsafe_insert_lem_example = unsafe_insert_lem sample-IsValid (omega arith)

find_lem_example :
    (rep : ℕ) × (find sample 3 ≡ some rep)
    × (contains sample.support rep ≡ true)
    × (rep ≤ 3)
    × (rep_at sample rep ≡ rep)
    × (find sample 1 ≡ some rep)
    × (find sample rep ≡ some rep)
find_lem_example = find_lem sample-IsValid 3 (unfold program in refl)

merge_lem_example :
    (r : ℕ) × (c' : Carrier) × (merge sample 3 2 ≡ some (r, c'))
    × Merged sample (root sample.reps 3) (root sample.reps 2) c'
merge_lem_example =
    merge_lem sample-IsValid 3 2 (omega arith) (unfold program in refl) (unfold program in refl)

ensure_equal_classes_example :
    (ob : ℕ) × (c' : Carrier) × (ensure_equal sample 2 3 ≡ some (ob, c'))
    × IsValid c'
    × ((x y : ℕ) → (equal c' x y ≡ some true) ↔ Joined (SameClass sample) 2 3 x y)
ensure_equal_classes_example =
    ensure_equal_classes sample-IsValid 2 3 (unfold program in refl) (unfold program in refl)

set_and_merge_lem_example :
    (b : Bool) × (d : ℕ) × (c' : Carrier) × (set_and_merge sample 2 3 ≡ some (b, d, c'))
    × Merged sample (root sample.reps 2) (root sample.reps 3) c'
    × (b ≡ true)
set_and_merge_lem_example =
    set_and_merge_lem sample-IsValid 2 3 (unfold program in refl) (unfold program in refl)

set_or_merge_lem_example :
    (b : Bool) × (d : ℕ) × (c' : Carrier) × (set_or_merge sample 2 3 ≡ some (b, d, c'))
    × (b ≡ false)
    × (d ≡ 2)
    × Merged sample (root sample.reps d) (root sample.reps 3) c'
set_or_merge_lem_example =
    set_or_merge_lem sample-IsValid 2 3 (λ h. unfold program in refl) (unfold program in refl)

alone : root sample.reps 3 ≡ 3 → (i : ℕ) → rep_at sample i ≡ 3 → i ≡ 3
unfolding root
alone e i h = absurd (omega arith)

unsafe_remove_lem_example :
    (c' : Carrier) × (unsafe_remove sample 3 ≡ some c')
    × IsValid c'
    × ((i : ℕ) → contains c'.support i ≡ (if 3 == i then false else contains sample.support i))
    × ((i : ℕ) → i ≢ 3 → root c'.reps i ≡ root sample.reps i)
    × (c'.item_count + 1 ≡ 3)
    × (c'.rep_count + (if root sample.reps 3 == 3 then 1 else 0) ≡ 2)
unsafe_remove_lem_example =
    unsafe_remove_lem sample-IsValid 3 (unfold program in refl) alone (omega arith)

validate_reps_lem_example : validate_reps sample ≡ true
validate_reps_lem_example = validate_reps_lem sample sample-IsValid (omega arith)

-- One representative too many, and an ob without a representative
refused :
    (validate_reps (record sample { rep_count = 3 }) ≡ false)
    × (validate_reps (record sample { reps = 0 ∷ 1 ∷ 0 ∷ 1 ∷ 0 ∷ [] }) ≡ false)
unfolding validate_reps check_obs contains
refused = (refl, refl)
