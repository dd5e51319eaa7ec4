-- ===== src/Prelude/Maps.antt =====
-- Go's maps with string keys, as association lists. A write keeps the place of a key that is there.
-- `range` over a Go map has no fixed order; where the code ranges over one, the model takes the
-- order of the list, and the statements hold for every such list.
use Prim.Native.String.{String}
use mathlib.Core.Path.{◌≡◌, refl, subst}
use mathlib.Core.Logic.{◌≢◌, inl, inr}
use mathlib.Core.Bool.{Bool, true, false}
use mathlib.Core.List.{List, [], ◌∷◌}
use mathlib.Core.Option.{Option, none, some}
use native.Mathlib.Omega.{arith}
use text.Mathlib.Text.{◌==◌}
use text.Mathlib.TextEquality.{eq_iff}
use workflow_execution_engin.Prelude.Tests.{if◌then◌else◌, get_or, Bool-cases}

abbrev pub Map {ℓ} : Type ℓ → Type ℓ
Map V = List (String × V)

module _ {ℓ} {V : Type ℓ} where
  -- m[k], with the second result of Go's two-valued form
  unfoldable pub lookup : String → Map V → Option V
  lookup k [] = none
  lookup k ((j, v) ∷ m) = if j == k then some v else lookup k m

  -- m[k] = v
  unfoldable pub insert : String → V → Map V → Map V
  insert k v [] = (k, v) ∷ []
  insert k v ((j, w) ∷ m) = if j == k then (j, v) ∷ m else (j, w) ∷ insert k v m

  -- delete(m, k)
  unfoldable pub erase : String → Map V → Map V
  erase k [] = []
  erase k ((j, w) ∷ m) = let rest = erase k m in if j == k then rest else (j, w) ∷ rest

  -- the one-valued form of m[k], where `d` is the zero value
  unfoldable pub at : String → V → Map V → V
  at k d m = get_or (lookup k m) d

  pub lookup-insert :
      (k a : String) (v : V) (m : Map V)
      → lookup a (insert k v m) ≡ (if k == a then some v else lookup a m)
  unfolding insert lookup
  lookup-insert k a v [] = refl
  lookup-insert k a v ((b, w) ∷ rest) =
      ground (arith, lookup-insert k a v rest, eq_iff b k, eq_iff b a, eq_iff k a)

  pub lookup-erase :
      (k j : String) (m : Map V) → lookup j (erase k m) ≡ (if k == j then none else lookup j m)
  unfolding lookup erase
  lookup-erase k j [] = ground arith
  lookup-erase k j ((i, w) ∷ m) =
      ground (arith, eq_iff k j, eq_iff i k, eq_iff i j, lookup-erase k j m)

  pub at-insert :
      (k j : String) (v d : V) (m : Map V)
      → at j d (insert k v m) ≡ (if k == j then v else at j d m)
  unfolding at
  at-insert k j v d m = ground (arith, lookup-insert k j v m)

  pub at-insert_self : (k : String) (v d : V) (m : Map V) → at k d (insert k v m) ≡ v
  at-insert_self k v d m = ground (arith, at-insert k k v d m, eq_iff k k)

  pub at-insert_ne : (k j : String) (v d : V) (m : Map V) → k ≢ j → at j d (insert k v m) ≡ at j d m
  at-insert_ne k j v d m h = ground (arith, at-insert k j v d m, eq_iff k j)

-- Two names that a test tells apart.
pub differ :
    (test : String → Bool) (k n : String) → test k ≡ true → test n ≡ false → (k == n) ≡ false
differ test k n p q = elim (Bool-cases (k == n)) [
  | inr d ↦ d
  | inl e ↦ absurd (ground (arith, q, subst (λ j. test j ≡ true) ((eq_iff k n).0 e) p))
]
