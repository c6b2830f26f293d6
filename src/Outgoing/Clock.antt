-- ===== src/Outgoing/Clock.antt =====
-- `time_before` against the order of the counts that it stands for.
use emer_gen_z.Base.{ℕ, ◌+◌, ◌%◌, ◌^◌, ◌<◌, ◌≡◌, arith, ltb}
use emer_gen_z.Outgoing.{time_before}

-- Two counts of jiffies that are less than 2^63 apart are ordered by their 64-bit remainders, also where
-- the 64-bit count has wrapped between them.
pub time_before-wraps :
    (x y : ℕ) → x < y + 2 ^ 63 → y < x + 2 ^ 63 → time_before (x % 2 ^ 64) (y % 2 ^ 64) ≡ ltb x y
unfolding time_before
time_before-wraps x y near near' = ground arith
