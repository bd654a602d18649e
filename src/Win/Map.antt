-- ===== src/Win/Map.antt =====
-- The standard library's `set` and `map` over numbers, as ascending lists of their keys.
pub mod Laws
pub mod Sorted
pub mod Erase
use venti.Prelude.{ℕ, List, [], ◌∷◌, Option, none, some, ◌==◌, ltb, if◌then◌else◌}

unfoldable pub set_insert : ℕ → List ℕ → List ℕ
set_insert k [] = k ∷ []
set_insert k (x ∷ xs) =
    let rest = set_insert k xs in
    if k == x then x ∷ xs else if ltb k x then k ∷ x ∷ xs else x ∷ rest

unfoldable pub map_put : {V : Type 0} → ℕ → V → List (ℕ × V) → List (ℕ × V)
map_put k v [] = (k, v) ∷ []
map_put k v ((x, u) ∷ m) =
    let rest = map_put k v m in
    if k == x then (k, v) ∷ m else if ltb k x then (k, v) ∷ (x, u) ∷ m else (x, u) ∷ rest

unfoldable pub map_get : {V : Type 0} → ℕ → List (ℕ × V) → Option V
map_get k [] = none
map_get k ((x, u) ∷ m) = let rest = map_get k m in if k == x then some u else rest

unfoldable pub map_erase : {V : Type 0} → ℕ → List (ℕ × V) → List (ℕ × V)
map_erase k [] = []
map_erase k ((x, u) ∷ m) = let rest = map_erase k m in if k == x then m else (x, u) ∷ rest
