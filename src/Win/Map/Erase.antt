-- ===== src/Win/Map/Erase.antt =====
-- Erasing a key of an ascending map.
use venti.Prelude.{
  ℕ, ◌≡◌, subst, true, List, [], ◌∷◌, none, arith, ◌==◌, if◌then◌else◌, inl, inr, Bool-cases,
}
use venti.Win.Map.{map_get, map_erase}
use venti.Win.Map.Sorted.{Above, Sorted, map_get-Above}

module _ {V : Type 0} where
  Above-map_erase : (y k : ℕ) (m : List (ℕ × V)) → Above y m → Above y (map_erase k m)
  unfolding map_erase
  Above-map_erase y k [] a = tt
  Above-map_erase y k ((x, u) ∷ m) (b, a) = elim (Bool-cases (k == x)) [
    | inl same ↦ rw same a
    | inr other ↦ rw other (b, Above-map_erase y k m a)
  ]

  pub Sorted-map_erase : (k : ℕ) (m : List (ℕ × V)) → Sorted m → Sorted (map_erase k m)
  unfolding map_erase
  Sorted-map_erase k [] s = tt
  Sorted-map_erase k ((x, u) ∷ m) (a, s) = elim (Bool-cases (k == x)) [
    | inl same ↦ rw same s
    | inr other ↦ rw other (Above-map_erase x k m a, Sorted-map_erase k m s)
  ]

  get_head :
      (j k x : ℕ) (u : V) (m : List (ℕ × V))
      → (k == x) ≡ true
      → Above x m
      → map_get j m ≡ (if j == k then none else map_get j ((x, u) ∷ m))
  unfolding map_get
  get_head j k x u m same a = elim (Bool-cases (j == x)) [
    | inl here ↦
        let gone : map_get j m ≡ none =
          map_get-Above j m (subst (λ y. Above y m) (ground arith) a) in
        ground (arith, gone)
    | inr there ↦ ground arith
  ]

  pub map_get-map_erase :
      (j k : ℕ) (m : List (ℕ × V))
      → Sorted m
      → map_get j (map_erase k m) ≡ (if j == k then none else map_get j m)
  unfolding map_erase map_get
  map_get-map_erase j k [] s = ground arith
  map_get-map_erase j k ((x, u) ∷ m) (a, s) = elim (Bool-cases (k == x)) [
    | inl same ↦ rw same (get_head j k x u m same a)
    | inr other ↦ rw other (ground (arith, map_get-map_erase j k m s))
  ]
