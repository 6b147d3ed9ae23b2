-- ===== src/Common/Assoc.antt =====
-- A JavaScript object used as a dictionary (`Record<string, V>`), as the list of its entries in
-- insertion order. The program's keys are UUIDs and never array indices, so `Object.entries` lists
-- them in that order.
use Prim.Native.String.{String}
use mathlib.Core.Path.{◌≡◌, refl}
use mathlib.Core.Option.{Option, none, some}
use mathlib.Core.List.{List, [], ◌∷◌}
use native.Mathlib.Omega.{arith}
use text.Mathlib.Text.{◌==◌}
use text.Mathlib.TextEquality.{eq_iff}
use judge_self.Common.Tests.{if◌then◌else◌}

abbrev pub Assoc {ℓ} : Type ℓ → Type ℓ
Assoc V = List (String × V)

module _ {ℓ} {V : Type ℓ} where
  -- `o[k]`
  unfoldable pub lookup : String → Assoc V → Option V
  lookup k [] = none
  lookup k ((j, v) ∷ o) = if j == k then some v else lookup k o

  -- `o[k] = v`: an old key keeps its place, a new one comes last
  unfoldable pub assign : String → V → Assoc V → Assoc V
  assign k v [] = (k, v) ∷ []
  assign k v ((j, w) ∷ o) = if j == k then (j, v) ∷ o else (j, w) ∷ assign k v o

  -- `delete o[k]`
  unfoldable pub erase : String → Assoc V → Assoc V
  erase k [] = []
  erase k ((j, w) ∷ o) = let rest = erase k o in if j == k then rest else (j, w) ∷ rest

  pub lookup-assign :
      (k j : String) (v : V) (o : Assoc V)
      → lookup j (assign k v o) ≡ (if k == j then some v else lookup j o)
  unfolding lookup assign
  lookup-assign k j v [] = refl
  lookup-assign k j v ((i, w) ∷ o) =
      ground (arith, eq_iff k j, eq_iff i k, eq_iff i j, lookup-assign k j v o)
