-- ===== src/Win/Signal/Table.antt =====
-- Whom a signal reaches (venti/platform/win/winsignalimpl.h).
use venti.Prelude.{ℕ, ◌≡◌, ◌||◌, Bool, false, ◌==◌, List, [], ◌∷◌}

-- The keys of a table.
abbrev pub has_key : {V : Type 0} → ℕ → List (ℕ × V) → Bool
has_key j [] = false
has_key j ((x, u) ∷ m) = j == x || has_key j m

-- What `signal(n, SigCallback)` is documented to do: `SigCallback` is then called for `n`, and for
-- the other signals what was called before.
pub record Installs {S : Type 0} (install : ℕ → S → S) (installed : ℕ → S → Bool) : Type 0 where
  pub installs : (j n : ℕ) (s : S) → installed j (install n s) ≡ (j == n || installed j s)
