-- ===== src/Buffer/Total.antt =====
-- `Buffers::Size` (venti/buffer.h) against the sum of the lengths.
use venti.Prelude.{ℕ, ◌+◌, ◌^◌, ◌<◌, ◌≡◌, ap, ◌∙◌, List, [], ◌∷◌, arith}
use venti.Prelude.Int.{pos, to_size, to_int}
use venti.Buffer.{Buffer, Buffers, size_step, size_from, size}

abbrev pub sum_len : List Buffer → ℕ
sum_len [] = 0
sum_len (b ∷ bs) = b.len + sum_len bs

-- A round keeps the sum modulo 2 ^ 32, also past the range of `int`.
size_step-to_int : (a len : ℕ) → size_step (to_int a) len ≡ to_int (a + len)
unfolding size_step to_int to_size
size_step-to_int a len = ground arith

size_from-to_int : (a : ℕ) (bs : List Buffer) → size_from (to_int a) bs ≡ to_int (a + sum_len bs)
unfolding size_from
size_from-to_int a [] = ap to_int (omega arith)
size_from-to_int a (b ∷ bs) =
    ap (λ v. size_from v bs) (size_step-to_int a b.len)
    ∙ size_from-to_int (a + b.len) bs
    ∙ ap to_int (omega arith)

-- `Size` is the sum of the lengths as an `int`: modulo 2 ^ 32, in two's complement.
pub size-to_int : (b : Buffers) → size b ≡ to_int (sum_len b.bufs)
unfolding size to_int
size-to_int b = size_from-to_int 0 b.bufs ∙ ap to_int (omega arith)

-- So it is the sum itself below 2 ^ 31.
pub size-sum_len : (b : Buffers) → sum_len b.bufs < 2 ^ 31 → size b ≡ pos (sum_len b.bufs)
size-sum_len b h = size-to_int b ∙ unfold to_int in ground arith
