-- ===== src/Win/Map/Laws.antt =====
-- Look-ups after insertions.
use venti.Prelude.{ℕ, ◌≡◌, refl, Bool, false, ◌||◌, List, [], ◌∷◌, some, arith, ◌==◌, if◌then◌else◌}
use venti.Win.Map.{set_insert, map_put, map_get}

abbrev pub contains : ℕ → List ℕ → Bool
contains j [] = false
contains j (x ∷ xs) = j == x || contains j xs

pub contains-set_insert :
    (j k : ℕ) (xs : List ℕ) → contains j (set_insert k xs) ≡ (j == k || contains j xs)
unfolding set_insert
contains-set_insert j k [] = refl
contains-set_insert j k (x ∷ xs) = ground (arith, contains-set_insert j k xs)

pub map_get-map_put :
    {V : Type 0} (j k : ℕ) (v : V) (m : List (ℕ × V))
    → map_get j (map_put k v m) ≡ (if j == k then some v else map_get j m)
unfolding map_get map_put
map_get-map_put j k v [] = refl
map_get-map_put j k v ((x, u) ∷ m) = ground (arith, map_get-map_put j k v m)

pub map_get_put :
    {V : Type 0} (k : ℕ) (v : V) (m : List (ℕ × V)) → map_get k (map_put k v m) ≡ some v
map_get_put k v m = ground (arith, map_get-map_put k k v m)
