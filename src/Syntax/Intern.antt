-- ===== src/Syntax/Intern.antt =====
-- Hash-consing: a table from keys to terms, its inverse, and the terms' kinds.
use pomagma.Prelude.{
  ℕ, ◌+◌, ◌≤◌, ◌<◌, ◌≡◌, ◌≢◌, refl, sym, ap, ◌∙◌, List, [], ◌∷◌, ◌++◌, false, Option, none, some,
  get_or, length, length-append, get_or-append, get_or-append_end, ◌==◌, ==_iff, if◌then◌else◌,
  arith, Bool-cases, Option-cases, inl, inr,
}
use mathlib.Core.Option.{some-injective, none-ne-some}
use pomagma.Prelude.Table.{Key, find, insert, find-insert, nat_key}
use pomagma.Syntax.Arity.{TermArity}

-- The terms of the kind `tag` have the keys that `intro` maps to them, one each.
pub record Interned {ℓ} {K : Type ℓ} (tag : TermArity) (intro : K → Option ℕ) (elims : List (ℕ × K))
    (arities : List TermArity) : Type ℓ where
  pub forth : (k : K) (t : ℕ) → intro k ≡ some t → find elims t ≡ some k
  pub back : (k : K) (t : ℕ) → find elims t ≡ some k → intro k ≡ some t
  pub known :
      (k : K) (t : ℕ)
      → find elims t ≡ some k
      → (1 ≤ t) × (t < length arities) × (get_or arities t TermArity.ivar ≡ tag)
  pub tagged :
      (t : ℕ)
      → 1 ≤ t
      → t < length arities
      → get_or arities t TermArity.ivar ≡ tag
      → (k : K) × (find elims t ≡ some k)

module _ {ℓ} {K : Type ℓ} {tag : TermArity} {intro : K → Option ℕ} {elims : List (ℕ × K)}
    {arities : List TermArity} (h : Interned tag intro elims arities) where
  -- No term has a key from the table's end on.
  pub unused : (t : ℕ) → length arities ≤ t → find elims t ≡ none
  unused t le = elim (Option-cases (find elims t)) [
    | inl e ↦ e
    | inr (k, e) ↦ absurd (omega (arith, (h.known k t e).1))
  ]

  -- A new term of another kind
  pub append-Interned :
      (other : TermArity) → other ≢ tag → Interned tag intro elims (arities ++ (other ∷ []))
  append-Interned other ne = record {
    forth = h.forth;
    back = h.back;
    known = λ k t e.
        let (one, in_range, kind) = h.known k t e in
        (
          one,
          omega (arith, length-append arities (other ∷ [])),
          get_or-append arities (other ∷ []) t TermArity.ivar in_range ∙ kind,
        );
    tagged = λ t one lt kind. elim (Bool-cases (t == length arities)) [
      | inl last ↦ absurd (
          ne (
            sym (
              get_or-append_end arities other TermArity.ivar t ((==_iff t (length arities)).0 last))
            ∙ kind))
      | inr old ↦
          let lt' : t < length arities = ground (arith, length-append arities (other ∷ [])) in
          h.tagged t one lt' (sym (get_or-append arities (other ∷ []) t TermArity.ivar lt') ∙ kind)
    ];
  }

  -- A new term of this kind, for a new key
  module _ ⦃key : Key K⦄ (k : K) (intro' : K → Option ℕ) (one : 1 ≤ length arities)
      (new : intro k ≡ none)
      (put_k : (j : K) → intro' j ≡ (if key.same k j then some (length arities) else intro j)) where
    find_new :
        (u : ℕ)
        → find (insert elims (length arities) k) u
          ≡ (if length arities == u then some k else find elims u)
    find_new u = find-insert elims (length arities) u k (unused (length arities) (omega arith))

    find_old :
        (u : ℕ) → u < length arities → find (insert elims (length arities) k) u ≡ find elims u
    find_old u lt =
        let other : (length arities == u) ≡ false = ground arith in rw (find_new u, other) refl

    kind_of :
        (u : ℕ)
        → u < length arities + 1
        → get_or (arities ++ (tag ∷ [])) u TermArity.ivar
          ≡ (if length arities == u then tag else get_or arities u TermArity.ivar)
    kind_of u lt = elim (Bool-cases (length arities == u)) [
      | inl y ↦
          rw y
            (get_or-append_end arities tag TermArity.ivar u (sym ((==_iff (length arities) u).0 y)))
      | inr n ↦ rw n (get_or-append arities (tag ∷ []) u TermArity.ivar (ground arith))
    ]

    found : (u : ℕ) → length arities ≡ u → find (insert elims (length arities) k) u ≡ some k
    found u at = let y = (==_iff (length arities) u).1 at in rw (find_new u, y) refl

    not_new : (j : K) (u : ℕ) → intro j ≡ some u → key.same k j ≡ false
    not_new j u e = elim (Bool-cases (key.same k j)) [
      | inl y ↦
          let same : k ≡ j = (key.same_iff k j).0 y in
          absurd (none-ne-some u (sym new ∙ ap intro same ∙ e))
      | inr n ↦ n
    ]

    length_new : length (arities ++ (tag ∷ [])) ≡ length arities + 1
    length_new = length-append arities (tag ∷ [])

    pub insert-Interned :
        Interned tag intro' (insert elims (length arities) k) (arities ++ (tag ∷ []))
    insert-Interned = record {
      forth = λ j u e. elim (Bool-cases (key.same k j)) [
        | inl y ↦
            let is_new : intro' j ≡ some (length arities) = rw (put_k j, y) refl in
            let at : length arities ≡ u = some-injective (length arities) u (sym is_new ∙ e) in
            found u at ∙ ap some ((key.same_iff k j).0 y)
        | inr n ↦
            let is_old : intro' j ≡ intro j = rw (put_k j, n) refl in
            let old = h.forth j u (sym is_old ∙ e) in find_old u (h.known j u old).1 ∙ old
      ];
      back = λ j u e. elim (Bool-cases (length arities == u)) [
        | inl y ↦
            let at = (==_iff (length arities) u).0 y in
            let same : k ≡ j = some-injective k j (sym (found u at) ∙ e) in
            let same' = (key.same_iff k j).1 same in rw (put_k j, same') (ap some at)
        | inr n ↦
            let is_old : find (insert elims (length arities) k) u ≡ find elims u =
              rw (find_new u, n) refl in
            let old = h.back j u (sym is_old ∙ e) in
            let other = not_new j u old in rw (put_k j, other) old
      ];
      known = λ j u e. elim (Bool-cases (length arities == u)) [
        | inl y ↦
            let at = (==_iff (length arities) u).0 y in
            (omega arith, omega (arith, length_new), kind_of u (omega arith) ∙ rw y refl)
        | inr n ↦
            let is_old : find (insert elims (length arities) k) u ≡ find elims u =
              rw (find_new u, n) refl in
            let (low, lt, kind) = h.known j u (sym is_old ∙ e) in
            (low, omega (arith, length_new), kind_of u (omega arith) ∙ rw n kind)
      ];
      tagged = λ u low lt kind. elim (Bool-cases (length arities == u)) [
        | inl y ↦ (k, found u ((==_iff (length arities) u).0 y))
        | inr n ↦
            let lt' : u < length arities = ground (arith, length_new) in
            let kind_old : get_or (arities ++ (tag ∷ [])) u TermArity.ivar
                ≡ get_or arities u TermArity.ivar =
              kind_of u (omega arith) ∙ rw n refl in
            let (j, e) = h.tagged u low lt' (sym kind_old ∙ kind) in (j, find_old u lt' ∙ e)
      ];
    }
