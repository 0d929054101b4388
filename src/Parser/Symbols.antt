-- ===== src/Parser/Symbols.antt =====
-- The class SymbolTable of pomagma/atlas/program.cpp: registers of the variables of a program.
use Prim.Native.String.{String}
use mathlib.Core.Option.{some-injective}
use pomagma.Prelude.{
  ℕ, suc, ◌≤◌, ◌<◌, ◌≡◌, ◌≢◌, refl, sym, ap, ◌∙◌, inl, inr, ◌⊎◌, ◌∷◌, true, ltb, if◌then◌else◌,
  none, some, length, arith, Bool-cases, Option-cases, ltb→lt,
}
use pomagma.Prelude.Table.{string_key, find, put, find-put}
use pomagma.Parser.{SymbolTable, store, load}

-- Every variable has a register of its own, among the first registers.
pub record IsValid (t : SymbolTable) : Type 0 where
  pub bounded : (name : String) (i : ℕ) → find t.registers name ≡ some i → i < length t.registers
  pub distinct :
      (name other : String) (i : ℕ)
      → find t.registers name ≡ some i
      → find t.registers other ≡ some i
      → name ≡ other
  pub small : length t.registers ≤ 256

-- The table that `store` leaves
abbrev stored : String → SymbolTable → SymbolTable
stored name t = record t { registers = put t.registers name (length t.registers) }

store_inverse :
    (name : String) (t t' : SymbolTable) (i : ℕ)
    → store name t ≡ some (i, t')
    → (find t.registers name ≡ none)
      × (length t.registers < 256)
      × (i ≡ length t.registers)
      × (t' ≡ stored name t)
unfolding store
store_inverse name t t' i e = elim (Option-cases (find t.registers name)) [
  | inl absent ↦ elim (Bool-cases (ltb (length t.registers) 256)) [
    | inl room ↦ (absent, ltb→lt _ _ room, ground arith, ground arith)
    | inr full ↦ absurd (ground arith)
  ]
  | inr (index, there) ↦ absurd (ground arith)
]

module _ (name : String) (t : SymbolTable) (v : IsValid t) (room : length t.registers < 256) where
  abbrev t' : SymbolTable
  t' = stored name t

  found :
      (other : String)
      → find t'.registers other
        ≡ (if string_key.same name other then some (length t.registers) else find t.registers other)
  found other = find-put t.registers name other (length t.registers)

  found-cases :
      (other : String) (i : ℕ)
      → find t'.registers other ≡ some i
      → ((name ≡ other) × (i ≡ length t.registers)) ⊎ (find t.registers other ≡ some i)
  found-cases other i e = elim (Bool-cases (string_key.same name other)) [
    | inl same ↦ inl (
      (string_key.same_iff name other).0 same,
      some-injective i _ (
          sym e
          ∙ found other
          ∙ ap (λ b. if b then some (length t.registers) else find t.registers other) same),
    )
    | inr differ ↦ inr (
        sym (
          found other
          ∙ ap (λ b. if b then some (length t.registers) else find t.registers other) differ)
        ∙ e)
  ]

  stored-IsValid : IsValid t'
  unfolding put
  stored-IsValid = record {
    bounded = λ other i e. bound (found-cases other i e);
    distinct = λ a b i e1 e2. apart a b i (found-cases a i e1) (found-cases b i e2);
    small = omega arith;
  }
    where
      bound :
          {other : String} {i : ℕ}
          → ((name ≡ other) × (i ≡ length t.registers)) ⊎ (find t.registers other ≡ some i)
          → i < suc (length t.registers)
      bound (inl (n, at)) = omega arith
      bound {other} {i} (inr old) = omega (arith, v.bounded other i old)

      apart :
          (a b : String) (i : ℕ)
          → ((name ≡ a) × (i ≡ length t.registers)) ⊎ (find t.registers a ≡ some i)
          → ((name ≡ b) × (i ≡ length t.registers)) ⊎ (find t.registers b ≡ some i)
          → a ≡ b
      apart a b i (inl (n, at)) (inl (m, bt)) = sym n ∙ m
      apart a b i (inl (n, at)) (inr old) = absurd (omega (arith, v.bounded b i old))
      apart a b i (inr old) (inl (m, bt)) = absurd (omega (arith, v.bounded a i old))
      apart a b i (inr p) (inr q) = v.distinct a b i p q

-- If `store` succeeds on a valid table, the name was not in the table and gets a register below 256
-- that no other name has; the other names keep theirs, the table stays valid, and `load` of the name
-- then gives that register.
pub store_lem :
    (name : String) (t t' : SymbolTable) (i : ℕ)
    → IsValid t
    → store name t ≡ some (i, t')
    → (find t.registers name ≡ none)
      × (i < 256)
      × ((other : String) → find t.registers other ≢ some i)
      × ((other : String)
          → find t'.registers other
            ≡ (if string_key.same name other then some i else find t.registers other))
      × IsValid t'
      × (load name t' ≡ some (i, record t' { loaded = name ∷ t'.loaded }))
unfolding load
store_lem name t t' i v e =
    let (absent, room, at, is) = store_inverse name t t' i e in
    let self : string_key.same name name ≡ true = (string_key.same_iff name name).1 refl in
    let here : find (stored name t).registers name ≡ some (length t.registers) =
      found name t v room name
      ∙ ap (λ b. if b then some (length t.registers) else find t.registers name) self in
    rw (at, is)
      (
        absent,
        room,
        λ other there. absurd (omega (arith, v.bounded other (length t.registers) there)),
        found name t v room,
        stored-IsValid name t v room,
        rw (here, load) refl,
      )
