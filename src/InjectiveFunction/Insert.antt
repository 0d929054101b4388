-- ===== src/InjectiveFunction/Insert.antt =====
-- `InjectiveFunction::insert`: it sets or merges both the value and the inverse.
use mathlib.Core.Path.{subst}
use pomagma.Prelude.{
  ℕ, ◌+◌, ◌≤◌, ◌≡◌, ◌≢◌, refl, sym, ap, ◌∙◌, List, Bool, true, not, ◌==◌, ◌||◌, ◌&&◌, ==_iff,
  if◌then◌else◌, some, get_or, set, length, get_or-set, length-set, arith, Bool-cases, inl, inr,
}
use pomagma.DenseSet.{DenseSet, contains, raw_insert, IsValid}
use pomagma.DenseSet.Element.{contains-insert, insert-IsValid, raw_insert-eq-insert}
use pomagma.Carrier.{Carrier, item_dim}
use pomagma.Carrier.Inv
use pomagma.Carrier.Root.{root}
use pomagma.Carrier.Merge.{Merged}
use pomagma.Carrier.Classes.{SameClass, set_or_merge_lem}
use pomagma.InjectiveFunction.{InjectiveFunction, find, inverse_find, one_if, insert}
use pomagma.InjectiveFunction.Mutual.{Inverts, put-Inverts}

-- A domain and its array over a carrier
pub record IsTable (c : Carrier) (domain : DenseSet) (values : List ℕ) : Type 0 where
  pub valid : IsValid domain
  pub size : domain.item_dim ≡ item_dim c
  pub sized : length values ≡ item_dim c + 1
  pub agrees : (k : ℕ) → contains domain k ≡ not (get_or values k 0 == 0)
  pub supported :
      (k : ℕ)
      → get_or values k 0 ≢ 0
      → (contains c.support k ≡ true) × (contains c.support (get_or values k 0) ≡ true)

-- A function over a carrier, that is injective up to the equality of obs.
pub record IsOver (c : Carrier) (f : InjectiveFunction) : Type 0 where
  pub table : IsTable c f.domain f.values
  pub inverse_table : IsTable c f.inverse_domain f.inverse
  pub inverts : Inverts (SameClass c) (find f) (inverse_find f)
  pub inverted : Inverts (SameClass c) (inverse_find f) (find f)

-- A merge keeps the equality of obs and makes the two equal.
Merged-more :
    {c c' : Carrier} {a b : ℕ} → Merged c a b c' → (x y : ℕ) → SameClass c x y → SameClass c' x y
Merged-more m x y e = ground (arith, m.roots x, m.roots y)

Merged-joins :
    {c c' : Carrier} (x y : ℕ) → Merged c (root c.reps x) (root c.reps y) c' → SameClass c' x y
Merged-joins x y m = ground (arith, m.roots x, m.roots y)

module _ (c : Carrier) (domain : DenseSet) (values : List ℕ) (h : IsTable c domain values)
    (v : Inv.IsValid c) (key val d : ℕ) (b : Bool) (on : contains c.support key ≡ true)
    (on_val : contains c.support val ≡ true) (hb : b ≡ (get_or values key 0 == 0))
    (hd : d ≡ (if get_or values key 0 == 0 then val else get_or values key 0)) where
  range : (1 ≤ key) × (key ≤ domain.item_dim)
  range = (omega (arith, (v.set.ranged key on).0), omega (arith, (v.set.ranged key on).1, h.size))

  get_or-put : (k : ℕ) → get_or (set values key d) k 0 ≡ (if key == k then d else get_or values k 0)
  get_or-put k = get_or-set values key k d 0 (omega (arith, range, h.size, h.sized))

  nonzero : d ≢ 0
  nonzero z = ground (arith, v.set.ranged val on_val, hd)

  contains-one_if :
      (k : ℕ) → contains (one_if b domain key) k ≡ (contains domain k || (b && key == k))
  contains-one_if k = elim (Bool-cases b) [
    | inl y ↦
        rw (y, raw_insert-eq-insert domain key)
          (ground (arith, contains-insert h.valid key range.1 k))
    | inr n ↦ rw n (ground arith)
  ]

  one_if-IsValid : IsValid (one_if b domain key)
  one_if-IsValid = elim (Bool-cases b) [
    | inl y ↦ rw (y, raw_insert-eq-insert domain key) (insert-IsValid h.valid key range.1 range.0)
    | inr n ↦ rw n h.valid
  ]

  one_if-size : (one_if b domain key).item_dim ≡ domain.item_dim
  unfolding raw_insert
  one_if-size = elim (Bool-cases b) [ inl y ↦ rw y refl | inr n ↦ rw n refl ]

  d_supported : contains c.support d ≡ true
  d_supported = elim (Bool-cases (get_or values key 0 == 0)) [
    | inl z ↦ rw (hd, z) on_val
    | inr n ↦ rw (hd, n) (h.supported key (λ q. ground arith)).1
  ]

  put-IsTable :
      (c' : Carrier) → c'.support ≡ c.support → IsTable c' (one_if b domain key) (set values key d)
  put-IsTable c' same = record {
    valid = one_if-IsValid;
    size = one_if-size ∙ h.size ∙ ap (λ s. s.item_dim) (sym same);
    sized = length-set values key d ∙ h.sized ∙ ap (λ s. s.item_dim + 1) (sym same);
    agrees = λ k. elim (Bool-cases (key == k)) [
      | inl y ↦
          let at = ap (λ j. get_or values j 0) ((==_iff key k).0 y) in
          ground (arith, contains-one_if k, get_or-put k, h.agrees k, nonzero, hb, at)
      | inr n ↦ ground (arith, contains-one_if k, get_or-put k, h.agrees k)
    ];
    supported = λ k nz. rw same (elim (Bool-cases (key == k)) [
      | inl y ↦
          let here = (==_iff key k).0 y in
          let value : get_or (set values key d) k 0 ≡ d = rw (get_or-put k, y) refl in
          rw value (subst (λ j. contains c.support j ≡ true) here on, d_supported)
      | inr n ↦
          let old : get_or (set values key d) k 0 ≡ get_or values k 0 = rw (get_or-put k, n) refl in
          rw old (h.supported k (λ q. nz (old ∙ q)))
    ]);
  }

-- For a valid carrier and a function over it, `insert` of a key and a value ends. The carrier stays
-- valid with the same obs, and the function is one over it again, injective up to the equality of
-- obs; that equality only grows; the value found at the key is defined and equal to the one given,
-- the inverse found at the value is defined and equal to the key, and what is found elsewhere stays.
pub insert_lem :
    (c : Carrier) (key val : ℕ) (f : InjectiveFunction)
    → Inv.IsValid c
    → IsOver c f
    → contains c.support key ≡ true
    → contains c.support val ≡ true
    → (f' : InjectiveFunction) × (c' : Carrier) × (insert c key val f ≡ some (f', c'))
      × Inv.IsValid c'
      × (c'.support ≡ c.support)
      × ((x y : ℕ) → SameClass c x y → SameClass c' x y)
      × IsOver c' f'
      × (find f' key ≢ 0)
      × SameClass c' (find f' key) val
      × (inverse_find f' val ≢ 0)
      × SameClass c' (inverse_find f' val) key
      × ((k : ℕ) → k ≢ key → find f' k ≡ find f k)
      × ((w : ℕ) → w ≢ val → inverse_find f' w ≡ inverse_find f w)
unfolding insert
insert_lem c key val f v o on on_val =
    let (b, d, c1, run1, hb, hd, m1) =
      set_or_merge_lem v (find f key) val (λ nz. (o.table.supported key nz).1) on_val in
    let on1 : (x : ℕ) → contains c.support x ≡ true → contains c1.support x ≡ true =
      λ x h. rw m1.support h in
    let (b', e, c2, run2, hb', he, m2) =
      set_or_merge_lem m1.valid (inverse_find f val) key
        (λ nz. on1 (inverse_find f val) (o.inverse_table.supported val nz).1) (on1 key on) in
    let f' : InjectiveFunction = record {
      domain = one_if b f.domain key;
      inverse_domain = one_if b' f.inverse_domain val;
      values = set f.values key d;
      inverse = set f.inverse val e;
    } in
    let same2 = m2.support ∙ m1.support in
    let more = λ (x y : ℕ) (h : SameClass c x y). Merged-more m2 x y (Merged-more m1 x y h) in
    let put_v = get_or-put c f.domain f.values o.table v key val d b on on_val hb hd in
    let put_w =
      get_or-put c f.inverse_domain f.inverse o.inverse_table v val key e b' on_val on hb' he in
    let same_val : SameClass c2 d val = Merged-more m2 d val (Merged-joins d val m1) in
    let same_key : SameClass c2 e key = Merged-joins e key m2 in
    let at_key : find f' key ≡ d = ground (arith, put_v key) in
    let at_val : inverse_find f' val ≡ e = ground (arith, put_w val) in
    let (key_low, _) = v.set.ranged key on in
    let (val_low, _) = v.set.ranged val on_val in
    (
      f',
      c2,
      rw (run1, run2) refl,
      m2.valid,
      same2,
      more,
      record {
        table = put-IsTable c f.domain f.values o.table v key val d b on on_val hb hd c2 same2;
        inverse_table =
            put-IsTable c f.inverse_domain f.inverse o.inverse_table v val key e b' on_val on hb' he
              c2 same2;
        inverts =
            put-Inverts (SameClass c) (SameClass c2) (find f) (inverse_find f) (find f')
              (inverse_find f') key val d e more put_v put_w hd he (λ z. omega arith) same_key
              o.inverts;
        inverted =
            put-Inverts (SameClass c) (SameClass c2) (inverse_find f) (find f) (inverse_find f')
              (find f') val key e d more put_w put_v he hd (λ z. omega arith) same_val o.inverted;
      },
      λ z. nonzero c f.domain f.values o.table v key val d b on on_val hb hd (sym at_key ∙ z),
      rw at_key same_val,
      λ z.
          nonzero c f.inverse_domain f.inverse o.inverse_table v val key e b' on_val on hb' he
            (sym at_val ∙ z),
      rw at_val same_key,
      λ k ne. ground (arith, put_v k),
      λ w ne. ground (arith, put_w w),
    )
