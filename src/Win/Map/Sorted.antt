-- ===== src/Win/Map/Sorted.antt =====
-- The keys of a map ascend.
use venti.Prelude.{
  ℕ, ◌≡◌, ◌<◌, refl, subst, ltb→lt, List, [], ◌∷◌, none, arith, ◌==◌, ltb, inl, inr, Bool-cases,
}
use venti.Win.Map.{map_put, map_get}

module _ {V : Type 0} where
  abbrev pub Above : ℕ → List (ℕ × V) → Type 0
  Above k [] = Unit {0}
  Above k ((x, u) ∷ m) = (k < x) × Above k m

  abbrev pub Sorted : List (ℕ × V) → Type 0
  Sorted [] = Unit {0}
  Sorted ((x, u) ∷ m) = Above x m × Sorted m

  Above-map_put : (y k : ℕ) (v : V) (m : List (ℕ × V)) → y < k → Above y m → Above y (map_put k v m)
  unfolding map_put
  Above-map_put y k v [] h a = (h, tt)
  Above-map_put y k v ((x, u) ∷ m) h (b, a) = elim (Bool-cases (k == x)) [
    | inl same ↦ rw same (h, a)
    | inr other ↦ elim (Bool-cases (ltb k x)) [
      | inl below ↦ rw (other, below) (h, (b, a))
      | inr above ↦ rw (other, above) (b, Above-map_put y k v m h a)
    ]
  ]

  pub Above-trans : (y k : ℕ) (m : List (ℕ × V)) → y < k → Above k m → Above y m
  Above-trans y k [] h a = tt
  Above-trans y k ((x, u) ∷ m) h (b, a) = (omega arith, Above-trans y k m h a)

  pub Sorted-map_put : (k : ℕ) (v : V) (m : List (ℕ × V)) → Sorted m → Sorted (map_put k v m)
  unfolding map_put
  Sorted-map_put k v [] s = (tt, tt)
  Sorted-map_put k v ((x, u) ∷ m) (a, s) = elim (Bool-cases (k == x)) [
    | inl same ↦ rw same (subst (λ y. Above y m) (ground arith) a, s)
    | inr other ↦ elim (Bool-cases (ltb k x)) [
      | inl below ↦
          rw (other, below) ((ltb→lt k x below, Above-trans k x m (ltb→lt k x below) a), (a, s))
      | inr above ↦
          rw (other, above) (Above-map_put x k v m (ground arith) a, Sorted-map_put k v m s)
    ]
  ]

  pub map_get-Above : (k : ℕ) (m : List (ℕ × V)) → Above k m → map_get k m ≡ none
  unfolding map_get
  map_get-Above k [] a = refl
  map_get-Above k ((x, u) ∷ m) (b, a) = ground (arith, map_get-Above k m a)
