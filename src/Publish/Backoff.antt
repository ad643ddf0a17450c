-- ===== src/Publish/Backoff.antt =====
-- The delay before a retry.
use device_handler.Prelude.{ℕ, zero, suc, ◌*◌, ◌^◌, ◌<◌, ◌≡◌, arith}
use device_handler.Time.{pos}
use device_handler.Publish.{backoff_delay}

-- 2 ^ min k 6, by its seven values.
abbrev pub factor : ℕ → ℕ
factor zero = 1
factor (suc zero) = 2
factor (suc (suc zero)) = 4
factor (suc (suc (suc zero))) = 8
factor (suc (suc (suc (suc zero)))) = 16
factor (suc (suc (suc (suc (suc zero))))) = 32
factor (suc (suc (suc (suc (suc (suc k)))))) = 64

-- With a positive base below 2^57 nanoseconds (some four years) nothing overflows: the delay before
-- retry k + 1 is the base doubled k times, and from the seventh retry on 64 times the base.
pub backoff_delay_lem :
    (base k : ℕ)
    → 0 < base
    → base < 2 ^ 57
    → backoff_delay (pos base) (suc k) ≡ pos (base * factor k)
unfolding backoff_delay
backoff_delay_lem base zero h l = ground arith
backoff_delay_lem base (suc zero) h l = ground arith
backoff_delay_lem base (suc (suc zero)) h l = ground arith
backoff_delay_lem base (suc (suc (suc zero))) h l = ground arith
backoff_delay_lem base (suc (suc (suc (suc zero)))) h l = ground arith
backoff_delay_lem base (suc (suc (suc (suc (suc zero))))) h l = ground arith
backoff_delay_lem base (suc (suc (suc (suc (suc (suc k)))))) h l = ground arith
