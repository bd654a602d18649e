-- ===== src/Sock/Expiry.antt =====
-- `SetTime` of venti/platform/linux/linuxsock.h.
use venti.Prelude.{ℕ, ◌+◌, ◌*◌, ◌/◌, ◌%◌, ◌<◌, ◌≡◌, refl, arith}
use venti.Prelude.Int.{pos}
use venti.Sock.{expiry_of, nsec_per_sec}

-- A time that is not negative is split exactly into whole seconds and fewer than 1000000000
-- nanoseconds, with no interval.
pub expiry_of_pos :
    (n : ℕ)
    → (sec : ℕ) × (nsec : ℕ) × (expiry_of (pos n) ≡ record {
      interval_sec = pos 0;
      interval_nsec = pos 0;
      value_sec = pos sec;
      value_nsec = pos nsec;
    })
      × (sec * nsec_per_sec + nsec ≡ n)
      × (nsec < nsec_per_sec)
unfolding expiry_of
expiry_of_pos n = (n / nsec_per_sec, n % nsec_per_sec, refl, omega arith, omega arith)
