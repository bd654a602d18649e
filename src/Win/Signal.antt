-- ===== src/Win/Signal.antt =====
-- venti/platform/win/winsignal.h and winsignalimpl.h: signal callbacks in one table for the process.
pub mod Table
use venti.Prelude.{ℕ, List, [], ◌∷◌, Option, none, some}
use venti.Win.Map.{set_insert, map_put, map_get}

-- `function<void(int)>`, the calls that it makes.
abbrev pub SigFunction : Type 0 → Type 0
SigFunction A = ℕ → List A

-- `map<int, function<void(int)>>`; `none` is an empty function.
abbrev pub SigMap : Type 0 → Type 0
SigMap A = List (ℕ × Option (SigFunction A))

-- `WinSigManager`, of which there is one, and `WinSigHandler`. The manager's context is only stored.
pub record WinSigManager (A : Type 0) : Type 0 where
  pub sigmap : SigMap A

pub record WinSigHandler : Type 0 where
  pub signals : List ℕ

-- `AddSig`
unfoldable pub win_add_sig : WinSigHandler → List ℕ → WinSigHandler
win_add_sig h [] = h
win_add_sig h (i ∷ is) = win_add_sig (record h { signals = set_insert i h.signals }) is

module _ {A : Type 0} where
  -- `SigCallback`: `sigmap_[signal]` of a missing key adds an empty function, and to call an empty
  -- function throws (`none`).
  unfoldable pub sig_callback : ℕ → WinSigManager A → Option (List A) × WinSigManager A
  sig_callback signal m = elim (map_get signal m.sigmap) [
    | none ↦ (none, record { sigmap = map_put signal none m.sigmap })
    | some none ↦ (none, m)
    | some (some f) ↦ (some (f signal), m)
  ]

  -- The first loop of `Wait`.
  unfoldable pub put_all : List ℕ → SigFunction A → SigMap A → SigMap A
  put_all [] fn m = m
  put_all (i ∷ is) fn m = put_all is fn (map_put i (some fn) m)

-- `signal(n, SigCallback)` is the parameter `install`.
module _ {A S : Type 0} (install : ℕ → S → S) where
  unfoldable pub install_all : SigMap A → S → S
  install_all [] s = s
  install_all ((i, f) ∷ m) s = install_all m (install i s)

  -- `Wait`
  unfoldable pub win_signal_wait :
      WinSigHandler → SigFunction A → WinSigManager A → S → WinSigManager A × S
  unfolding put_all
  win_signal_wait h fn m s =
      let m' : SigMap A = put_all h.signals fn m.sigmap in
      (record { sigmap = m' }, install_all m' s)
