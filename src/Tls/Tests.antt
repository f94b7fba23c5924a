-- ===== src/Tls/Tests.antt =====
-- Runs of the pool.
use mathlib.Core.Path.{subst}
use easy_connection.Prelude.{
  ℕ, ◌+◌, ◌*◌, ◌≤◌, ◌≡◌, refl, arith, List, [], ◌∷◌, Option, ok, err, length,
}
use easy_connection.Tls.Pool.{
  IdlePool, PoolState, started, looked, dialing, new, fill, fill_one, pop_fresh, take, resume,
  Reach, opens, then, fills, resumes,
}
use easy_connection.Tls.Pool.Fresh.{Popped, Taken, take_fresh}
use easy_connection.Tls.Pool.Bounds.{Bounded, Reach-Bounded}
use easy_connection.Tls.Pool.Ends.{Run, halts, fill_tasks_end}

-- A transport is a number here, and an error too.
abbrev Pool : Type 0
Pool = PoolState ℕ

-- A pool of one is filled by two tasks; the first one is in its dial.
abbrev filled : Pool
filled = fill 2 (record { pool = new 0; tasks = [] })

abbrev one_dials : Pool
one_dials = record {
  pool = record { max_idle = 1; idle = []; filling = 1 };
  tasks = dialing ∷ started ∷ [];
}

looks :
    resume {S = ℕ} {E = ℕ} 3 (ok 7) [] started (started ∷ []) (new 0)
    ≡ record { pool = new 0; tasks = looked ∷ started ∷ [] }
unfolding resume fill_one
looks = refl

starts_dial : resume {S = ℕ} {E = ℕ} 3 (ok 7) [] looked (started ∷ []) (new 0) ≡ one_dials
unfolding resume fill_one
starts_dial = refl

filled_reached : Reach ℕ ℕ filled
filled_reached = then (opens 0) (fills 2 _ (omega arith))

one_dials_reached : Reach ℕ ℕ one_dials
one_dials_reached = subst (Reach ℕ ℕ) starts_dial (
    then
      (subst (Reach ℕ ℕ) looks
        (then filled_reached (resumes 3 (ok 7) [] started (started ∷ []) (new 0))))
      (resumes 3 (ok 7) [] looked (started ∷ []) (new 0)))

Reach-Bounded_example : Bounded one_dials
Reach-Bounded_example = Reach-Bounded one_dials_reached

-- Two transports, of which the first is 25 s old.
abbrev stocked : Pool
stocked = record {
  pool = record { max_idle = 4; idle = (1, 7) ∷ (5, 8) ∷ []; filling = 0 };
  tasks = [];
}

take_fresh_example :
    (x : Option ℕ × List (ℕ × ℕ)) × Popped 25_000_000_001 stocked.pool.idle x
    × Taken {E = ℕ} (err 1) stocked x (take 25_000_000_001 (err 1) stocked)
take_fresh_example = take_fresh 25_000_000_001 (err 1) stocked

takes_second : take {E = ℕ} 25_000_000_001 (err 1) stocked ≡ (
  ok 8,
  record { pool = record { max_idle = 4; idle = []; filling = 0 }; tasks = started ∷ [] },
)
unfolding take pop_fresh
takes_second = refl

fill_tasks_end_example :
    (m : ℕ) × (q : IdlePool ℕ) × Run ℕ ℕ m one_dials (record { pool = q; tasks = [] })
    × (0 + m ≤ 4 * 2)
    × (q.filling ≡ 0)
    × (length q.idle ≤ q.max_idle)
fill_tasks_end_example = fill_tasks_end 9 (err 1) one_dials_reached (halts one_dials)
