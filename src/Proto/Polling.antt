-- ===== src/Proto/Polling.antt =====
-- poll_rps_loop of bpf_broker/bpf_broker_proto.c, which logs every second by how much the per-CPU
-- counters of publishes have grown. The thread that would run it is commented out in main.
use bpf_broker.Prelude.{
  ℕ, zero, suc, true, ◌+◌, ◌-◌, ◌%◌, ◌^◌, ◌≤◌, ◌≡◌, refl, arith, Bool, ltb, if◌then◌else◌,
  replicate, List, [], ◌∷◌, Option, none, some,
}
use bpf_broker.Frame.{u32}

abbrev pub max_cpus : ℕ
max_cpus = 128

-- The loop over the CPUs, on the two arrays from one CPU on.
unfoldable pub add_growth : ℕ → List ℕ → List ℕ → ℕ
add_growth total [] prev_values = total
add_growth total (curr ∷ curr_values) [] = total
add_growth total (curr ∷ curr_values) (prev ∷ prev_values) =
    add_growth (if ltb prev curr then u32 (total + (curr - prev)) else total) curr_values
      prev_values

-- The rounds, by what the lookup gives: `none` is an error, after which the round is over. The
-- result is what is logged.
unfoldable pub poll_rounds : List (Option (List ℕ)) → List ℕ → List ℕ
unfolding add_growth
poll_rounds [] prev_values = []
poll_rounds (none ∷ lookups) prev_values = poll_rounds lookups prev_values
poll_rounds (some curr_values ∷ lookups) prev_values =
    add_growth 0 curr_values prev_values ∷ poll_rounds lookups curr_values

-- `none` is the return where the log cannot be opened.
unfoldable pub poll_rps_loop : Bool → List (Option (List ℕ)) → Option (List ℕ)
unfolding poll_rounds
poll_rps_loop opened lookups =
    if opened then some (poll_rounds lookups (replicate max_cpus 0)) else none

abbrev pub sum : List ℕ → ℕ
sum [] = 0
sum (x ∷ xs) = x + sum xs

-- No counter has gone back.
abbrev pub HasGrown : List ℕ → List ℕ → Type 0
HasGrown [] [] = Unit
HasGrown [] (curr ∷ curr_values) = ⊥
HasGrown (prev ∷ prev_values) [] = ⊥
HasGrown (prev ∷ prev_values) (curr ∷ curr_values) =
    (prev ≤ curr) × HasGrown prev_values curr_values

abbrev pub Grows : List ℕ → List (Option (List ℕ)) → Type 0
Grows prev_values [] = Unit
Grows prev_values (none ∷ lookups) = Grows prev_values lookups
Grows prev_values (some curr_values ∷ lookups) =
    HasGrown prev_values curr_values × Grows curr_values lookups

-- The values that were read last.
abbrev pub last_values : List ℕ → List (Option (List ℕ)) → List ℕ
last_values prev_values [] = prev_values
last_values prev_values (none ∷ lookups) = last_values prev_values lookups
last_values prev_values (some curr_values ∷ lookups) = last_values curr_values lookups

add_growth-sum :
    (total : ℕ) (curr_values prev_values : List ℕ)
    → HasGrown prev_values curr_values
    → (add_growth total curr_values prev_values + sum prev_values) % 2 ^ 32
      ≡ (total + sum curr_values) % 2 ^ 32
unfolding add_growth
add_growth-sum total [] [] h = refl
add_growth-sum total [] (p ∷ ps) h = absurd h
add_growth-sum total (c ∷ cs) [] h = absurd h
add_growth-sum total (c ∷ cs) (p ∷ ps) (le, h) =
    let rest = add_growth-sum (if ltb p c then u32 (total + (c - p)) else total) cs ps h in
    ground arith

poll_rounds-sum :
    (lookups : List (Option (List ℕ))) (prev_values : List ℕ)
    → Grows prev_values lookups
    → (sum (poll_rounds lookups prev_values) + sum prev_values) % 2 ^ 32
      ≡ sum (last_values prev_values lookups) % 2 ^ 32
unfolding poll_rounds
poll_rounds-sum [] prev_values h = omega arith
poll_rounds-sum (none ∷ lookups) prev_values h = poll_rounds-sum lookups prev_values h
poll_rounds-sum (some curr_values ∷ lookups) prev_values (grown, h) =
    let rest = poll_rounds-sum lookups curr_values h in
    let one = add_growth-sum 0 curr_values prev_values grown in omega (arith, rest, one)

zeros : (n : ℕ) → sum (replicate n 0) ≡ 0
zeros zero = refl
zeros (suc n) = omega (arith, zeros n)

-- If the log can be opened and no counter of the 128 goes back from one successful lookup to the
-- next, the numbers that poll_rps_loop has logged add up to the sum of the counters that were read
-- last, modulo 2 ^ 32, whatever lookups fail.
pub poll_rps_loop-sum :
    (lookups : List (Option (List ℕ)))
    → Grows (replicate max_cpus 0) lookups
    → (log : List ℕ) × (poll_rps_loop true lookups ≡ some log)
      × (sum log % 2 ^ 32 ≡ sum (last_values (replicate max_cpus 0) lookups) % 2 ^ 32)
unfolding poll_rps_loop
poll_rps_loop-sum lookups h = (
  poll_rounds lookups (replicate max_cpus 0),
  refl,
  omega (arith, poll_rounds-sum lookups (replicate max_cpus 0) h, zeros max_cpus),
)
