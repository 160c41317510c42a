-- ===== src/User/Timeouts.antt =====
-- linux-gpib-user/lib/ibTmo.c: the numbers of the timeouts and their length in microseconds.
pub mod Laws
use linux_gpib.Prelude.{
  ℕ, suc, ◌+◌, Option, none, some, List, [], ◌∷◌, get_elem?, ltb, leb, ◌==◌, if◌then◌else◌,
}
use linux_gpib.User.Codes.{tnone}

abbrev default_ppoll_usec_timeout : ℕ
default_ppoll_usec_timeout = 2

-- the cases of the `switch`, from TNONE to T1000s
abbrev usec_of_timeout : List ℕ
usec_of_timeout =
    0 ∷ 10 ∷ 30 ∷ 100 ∷ 300 ∷ 1000 ∷ 3000 ∷ 10000 ∷ 30000 ∷ 100000 ∷ 300000 ∷ 1000000 ∷ 3000000
    ∷ 10000000 ∷ 30000000 ∷ 100000000 ∷ 300000000 ∷ 1000000000 ∷ []

unfoldable pub timeout_to_usec : ℕ → ℕ
timeout_to_usec timeout = elim (get_elem? usec_of_timeout timeout) [ none ↦ 0 | some usec ↦ usec ]

unfoldable pub ppoll_timeout_to_usec : ℕ → ℕ
unfolding timeout_to_usec
ppoll_timeout_to_usec timeout =
    if timeout == 0 then default_ppoll_usec_timeout else timeout_to_usec timeout

-- the bounds of the chain of tests, of T10us first
abbrev bound_of_timeout : List ℕ
bound_of_timeout =
    10 ∷ 30 ∷ 100 ∷ 300 ∷ 1000 ∷ 3000 ∷ 10000 ∷ 30000 ∷ 100000 ∷ 300000 ∷ 1000000 ∷ 3000000
    ∷ 10000000 ∷ 30000000 ∷ 100000000 ∷ 300000000 ∷ 1000000000 ∷ []

-- The chain from the timeout `number` on; it ends in TNONE.
unfoldable pub first_bound : ℕ → List ℕ → ℕ → ℕ
first_bound number [] usec = tnone
first_bound number (bound ∷ bounds) usec =
    let further = first_bound (suc number) bounds usec in if leb usec bound then number else further

unfoldable pub usec_to_timeout : ℕ → ℕ
unfolding first_bound
usec_to_timeout usec = if usec == 0 then tnone else first_bound 1 bound_of_timeout usec

unfoldable pub usec_to_ppoll_timeout : ℕ → ℕ
unfolding usec_to_timeout
usec_to_ppoll_timeout usec = if leb usec default_ppoll_usec_timeout then 0 else usec_to_timeout usec
