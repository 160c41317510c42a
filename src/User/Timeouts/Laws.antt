-- ===== src/User/Timeouts/Laws.antt =====
-- The two tables of timeouts belong together.
use linux_gpib.Prelude.{ℕ, ◌≤◌, ◌≡◌, arith}
use linux_gpib.User.Timeouts.{timeout_to_usec, usec_to_timeout, first_bound}

-- Each number of a timeout is the number that its microseconds are given.
pub usec_to_timeout-timeout_to_usec :
    (timeout : ℕ) → timeout ≤ 17 → usec_to_timeout (timeout_to_usec timeout) ≡ timeout
unfolding usec_to_timeout timeout_to_usec first_bound
usec_to_timeout-timeout_to_usec timeout h = ground arith

-- A time up to 1000 s is given a number, at most that of 1000 s, whose timeout is no shorter.
pub timeout_to_usec-usec_to_timeout :
    (usec : ℕ)
    → usec ≤ 1000000000
    → (usec ≤ timeout_to_usec (usec_to_timeout usec)) × (usec_to_timeout usec ≤ 17)
unfolding usec_to_timeout timeout_to_usec first_bound
timeout_to_usec-usec_to_timeout usec h = (ground arith, ground arith)
