-- ===== src/Common/Table.antt =====
-- A table with a unique key, as the list of its rows.
use mathlib.Core.Path.{◌≡◌, refl}
use mathlib.Core.Logic.{◌↔◌, inl, inr}
use mathlib.Core.Bool.{Bool, true, false}
use mathlib.Core.List.{List, [], ◌∷◌}
use mathlib.Core.Option.{Option, none, some}
use native.Mathlib.Omega.{arith}
use algo_trading.Common.Tests.{if◌then◌else◌, Bool-cases}

abbrev pub Table {ℓ κ} : Type ℓ → Type κ → Type (ℓ ⊔ κ)
Table K V = List (K × V)

module _ {K V : Type 0} (same : K → K → Bool) where
  -- SELECT by the key.
  unfoldable pub find : K → Table K V → Option V
  find k [] = none
  find k ((j, v) ∷ t) = if same k j then some v else find k t

  -- INSERT, or UPDATE of the row with the key.
  unfoldable pub put : K → V → Table K V → Table K V
  put k v [] = (k, v) ∷ []
  put k v ((j, w) ∷ t) = if same k j then (j, v) ∷ t else (j, w) ∷ put k v t

  module _ (iff : (j k : K) → (same j k ≡ true) ↔ (j ≡ k)) where
    pub find-put_self : (k : K) (v : V) (t : Table K V) → find k (put k v t) ≡ some v
    unfolding find put
    find-put_self k v [] = rw ((iff k k).1 refl)
    find-put_self k v ((j, w) ∷ t) = elim (Bool-cases (same k j)) [
      | inl hit ↦ rw (hit, find, hit)
      | inr miss ↦ rw (miss, find, miss) (find-put_self k v t)
    ]

    pub find-put_ne :
        (j k : K) (v : V) (t : Table K V) → same j k ≡ false → find j (put k v t) ≡ find j t
    unfolding find put
    find-put_ne j k v [] ne = rw ne
    find-put_ne j k v ((i, w) ∷ t) ne = elim (Bool-cases (same k i)) [
      | inl hit ↦ let other : same j i ≡ false = rw (← (iff k i).0 hit) ne in rw (hit, find, other)
      | inr miss ↦ rw (miss, find) (ground (arith, find-put_ne j k v t ne))
    ]
