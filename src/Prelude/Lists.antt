-- ===== src/Prelude/Lists.antt =====
-- Lists measured by native numbers, and predicates on lists by recursion.
use Prim.Native.Nat.{ℕ, suc, ◌+◌}
use mathlib.Core.Path.{◌≡◌}
use mathlib.Core.Bool.{Bool, true, false}
use mathlib.Core.List.{List, [], ◌∷◌, ◌++◌}
use native.Mathlib.Omega.{arith}

module _ {ℓ} {A : Type ℓ} where
  abbrev pub length : List A → ℕ
  length [] = 0
  length (x ∷ xs) = suc (length xs)

  pub length-append : (xs ys : List A) → length (xs ++ ys) ≡ length xs + length ys
  length-append [] ys = omega arith
  length-append (x ∷ xs) ys = omega (arith, length-append xs ys)

module _ {ℓ κ} {A : Type ℓ} (P : A → Type κ) where
  abbrev pub All : List A → Type κ
  All [] = Unit
  All (x ∷ xs) = P x × All xs

-- A loop `for ... { if test { out = append(out, x) } }`.
module _ {ℓ} {A : Type ℓ} (test : A → Bool) where
  abbrev pub keep : Bool → A → List A → List A
  keep true x rest = x ∷ rest
  keep false x rest = rest

  abbrev pub select : List A → List A
  select [] = []
  select (x ∷ xs) = keep (test x) x (select xs)

  abbrev pub any : List A → Bool
  any [] = false
  any (x ∷ xs) = elim (test x) [ true ↦ true | false ↦ any xs ]
