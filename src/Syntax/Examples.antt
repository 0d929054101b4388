-- ===== src/Syntax/Examples.antt =====
-- Structures with a few terms: tests of the operations, and the theorems at such structures.
use pomagma.Prelude.{ℕ, ◌+◌, ◌-◌, ◌^◌, ◌≤◌, ◌<◌, ◌≡◌, refl, Option, some, length, arith}
use pomagma.Syntax.Arity.{TermArity}
use pomagma.Syntax.Valid.{IsValid, create-IsValid, Extends}
use pomagma.Syntax.Made.{Made}
use pomagma.Syntax.App.{app_lem}
use pomagma.Syntax.Nvar.{nvar_lem}
use pomagma.Syntax.Join.{join_lem}
use pomagma.Syntax.Ivar.{ivar_lem}
use pomagma.Syntax.Literals.{IsLiteral, less_lem}
use pomagma.Syntax.Check.{release, assert_valid}
use pomagma.Syntax.Checked.{assert_valid_lem}
use pomagma.Syntax.{
  ℤ, pos, neg, Structure, create, app, nvar, join, ivar, less, nless, ivar_arg, nvar_arg, app_arg,
  join_arg,
}

-- S K, and then K | S K.
abbrev applied : Structure
applied = (app 7 4 create).1

abbrev joined : Structure
joined = (join 8 4 applied).1

applied-IsValid : IsValid applied
applied-IsValid = (app_lem create 7 4 create-IsValid (unfold create in omega arith)).0.valid

applied_room :
    (length applied.arities ≡ 9) × (length applied.ivars ≡ 0) × (length applied.less_args ≡ 1)
unfolding create app pomagma.Syntax.term_at pomagma.Prelude.Table.find pomagma.Syntax.to_term
applied_room = (refl, refl, refl)

terms :
    ((app 7 4 create).0 ≡ 8)
    × ((join 8 4 applied).0 ≡ 9)
    × ((join 4 8 joined).0 ≡ 9)
    × ((less 8 9 joined).0 ≡ pos 1)
unfolding create app join pomagma.Syntax.join_sorted less pomagma.Syntax.term_at
    pomagma.Prelude.Table.find pomagma.Syntax.to_term pomagma.Prelude.Table.put
    pomagma.Syntax.is_null pomagma.Syntax.literal_at pomagma.Syntax.to_literal
terms = (refl, refl, refl, refl)

app_lem_example :
    Made TermArity.app create 8 applied
    × (app_arg applied 8 ≡ some (7, 4))
    × (app 7 4 applied ≡ (8, applied))
unfolding create app pomagma.Syntax.term_at pomagma.Prelude.Table.find pomagma.Syntax.to_term
app_lem_example = app_lem create 7 4 create-IsValid (omega arith)

nvar_lem_example :
    let (t, s') = nvar "x" applied in
    Made TermArity.nvar applied t s' × (nvar_arg s' t ≡ some "x") × (nvar "x" s' ≡ (t, s'))
nvar_lem_example = nvar_lem applied "x" applied-IsValid (omega (arith, applied_room))

join_lem_example :
    (join 4 4 applied ≡ (4, applied))
    × (join 8 4 applied ≡ join 4 8 applied)
    × (let (t, s') = join 4 8 applied in
        Made TermArity.join applied t s' × (join_arg s' t ≡ some (4, 8)) × (join 4 8 s' ≡ (t, s')))
join_lem_example = join_lem applied 4 8 applied-IsValid (omega (arith, applied_room)) (omega arith)

ivar_lem_example :
    (t : ℕ) × (s' : Structure) × (ivar 2 applied ≡ some (t, s'))
    × Made TermArity.ivar applied t s'
    × (ivar_arg s' t ≡ some 2)
    × (ivar 2 s' ≡ some (t, s'))
ivar_lem_example = ivar_lem applied 2 applied-IsValid (omega (arith, applied_room))

less_lem_example :
    let (x, s') = less 8 4 applied in
    IsValid s'
    × Extends applied s'
    × IsLiteral s' x 8 4
    × (less 8 4 s' ≡ (x, s'))
    × (nless 8 4 applied ≡ (neg x, s'))
less_lem_example = less_lem applied 8 4 applied-IsValid (omega (arith, applied_room))

assert_valid_lem_example : assert_valid release applied ≡ some applied
assert_valid_lem_example =
    assert_valid_lem applied applied-IsValid (omega (arith, applied_room))
      (omega (arith, applied_room))
