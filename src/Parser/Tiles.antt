-- ===== src/Parser/Tiles.antt =====
-- Lists of listings of pomagma/atlas/program.cpp that cover bytes without a gap.
use mathlib.Core.Path.{subst}
use pomagma.Prelude.{
  ℕ, zero, suc, ◌+◌, ◌≤◌, ◌≡◌, refl, sym, ap, ◌∙◌, List, [], ◌∷◌, ◌++◌, length, take, drop, arith,
  drop-append, length-drop,
}
use pomagma.Prelude.Table.{string_key}
use pomagma.Agenda.{Listing}
use pomagma.Parser.Writes.{IsCode}

-- The listings cover the bytes from one offset to another without a gap, each of them at least one
-- byte, and the bytes of each are whole instructions.
abbrev pub Tiles : List ℕ → ℕ → List Listing → ℕ → Type 0
Tiles bytes from [] to = from ≡ to
Tiles bytes from (l ∷ ls) to =
    (l.program_offset ≡ from)
    × (1 ≤ l.size)
    × IsCode (take l.size (drop l.program_offset bytes))
    × Tiles bytes (from + l.size) ls to

pub Tiles-le :
    (bytes : List ℕ) (from : ℕ) (ls : List Listing) (to : ℕ) → Tiles bytes from ls to → from ≤ to
Tiles-le bytes from [] to h = omega arith
Tiles-le bytes from (l ∷ ls) to (at, pos, code, rest) =
    omega (arith, Tiles-le bytes (from + l.size) ls to rest)

take-append {ℓ} :
    {A : Type ℓ} (n : ℕ) (xs ys : List A) → n ≤ length xs → take n (xs ++ ys) ≡ take n xs
take-append zero xs ys le = refl
take-append (suc n) [] ys le = absurd (omega arith)
take-append (suc n) (x ∷ xs) ys le = ap (◌∷◌ x) (take-append n xs ys (omega arith))

pub slice-append :
    (size offset : ℕ) (xs ys : List ℕ)
    → offset + size ≤ length xs
    → take size (drop offset (xs ++ ys)) ≡ take size (drop offset xs)
slice-append size offset xs ys le =
    ap (take size) (drop-append offset xs ys (omega arith))
    ∙ take-append size (drop offset xs) ys (omega (arith, length-drop offset xs))

pub Tiles-append :
    (bytes more : List ℕ) (from : ℕ) (ls : List Listing) (to : ℕ)
    → to ≤ length bytes
    → Tiles bytes from ls to
    → Tiles (bytes ++ more) from ls to
Tiles-append bytes more from [] to le h = h
Tiles-append bytes more from (l ∷ ls) to le (at, pos, code, rest) = (
  at,
  pos,
  subst IsCode
      (sym (
        slice-append l.size l.program_offset bytes more
          (omega (arith, Tiles-le bytes (from + l.size) ls to rest))))
      code,
  Tiles-append bytes more (from + l.size) ls to le rest,
)

pub Tiles-append_one :
    (bytes : List ℕ) (from : ℕ) (ls : List Listing) (to : ℕ) (l : Listing)
    → Tiles bytes from ls to
    → l.program_offset ≡ to
    → 1 ≤ l.size
    → IsCode (take l.size (drop l.program_offset bytes))
    → Tiles bytes from (ls ++ l ∷ []) (to + l.size)
Tiles-append_one bytes from [] to l h at pos code = (at ∙ sym h, pos, code, ap (λ n. n + l.size) h)
Tiles-append_one bytes from (k ∷ ls) to l (e, p, c, rest) at pos code =
    (e, p, c, Tiles-append_one bytes (from + k.size) ls to l rest at pos code)
