-- ===== src/Buffer.antt =====
-- venti/buffer.h: a buffer is an address and a length; the memory itself belongs to the kernel's
-- side of the model (`Os`).
pub mod Total
use venti.Prelude.{ℕ, ◌+◌, ◌%◌, ◌^◌, List, [], ◌∷◌}
use venti.Prelude.Int.{ℤ, pos, to_size, to_int}

pub record Buffer : Type 0 where
  pub content : ℕ
  pub len : ℕ

pub record Buffers : Type 0 where
  pub bufs : List Buffer

-- `Buffers(Buffer buf)`
abbrev pub buffers_of : Buffer → Buffers
buffers_of b = record { bufs = b ∷ [] }

abbrev pub buffers_empty : Buffers
buffers_empty = record { bufs = [] }

-- One round of the loop in `Size`: `val += i.len_` adds as `size_t` and stores as `int`.
unfoldable pub size_step : ℤ → ℕ → ℤ
size_step val len = to_int ((to_size val + len) % 2 ^ 64)

pub size_from : ℤ → List Buffer → ℤ
size_from val [] = val
size_from val (b ∷ bs) = size_from (size_step val b.len) bs

-- `Buffers::Size`
pub size : Buffers → ℤ
unfolding size_from
size b = size_from (pos 0) b.bufs
