-- ===== src/Tls/Pool.antt =====
-- crates/tls/src/pool.rs. An instant is a number of nanoseconds, and what `dial` answers is a
-- parameter. A fill task is the place that `fill_one` has reached: each lock that it takes, each
-- change of the counter and the dial are a step of their own, and other tasks run in between.
pub mod Fresh
pub mod Bounds
pub mod Ends
use easy_connection.Prelude.{
  ℕ, zero, suc, ◌+◌, ◌-◌, ◌≤◌, ◌<◌, ◌==◌, ltb, leb, if◌then◌else◌, Bool, true, false, Option, none,
  some, List, [], ◌∷◌, ◌++◌, Result, ok, err, length, replicate,
}

-- 25 s.
abbrev pub max_idle_age : ℕ
max_idle_age = 25_000_000_000

abbrev pub usize_max : ℕ
usize_max = 0xffff_ffff_ffff_ffff

abbrev pub fetch_add : ℕ → ℕ
fetch_add n = if n == usize_max then 0 else n + 1

abbrev pub fetch_sub : ℕ → ℕ
fetch_sub n = if n == 0 then usize_max else n - 1

-- The oldest transport comes first.
pub record IdlePool (S : Type 0) : Type 0 where
  pub max_idle : ℕ
  pub idle : List (ℕ × S)
  pub filling : ℕ

-- Where a task stands: before its look at the queue, behind it, in the dial, with the transport that
-- was dialed, or about to take its count back without a dial.
pub data FillTask (S : Type 0) : Type 0 where
  started : FillTask S
  looked : FillTask S
  dialing : FillTask S
  dialed : S → FillTask S
  backing : FillTask S

-- The pool and the fill tasks that have not ended.
pub record PoolState (S : Type 0) : Type 0 where
  pub pool : IdlePool S
  pub tasks : List (FillTask S)

module _ {S : Type 0} where
  abbrev pub new : ℕ → IdlePool S
  new max_idle = record { max_idle = if max_idle == 0 then 1 else max_idle; idle = []; filling = 0 }

  -- The `while let` of `take`: what is too old is dropped on the way.
  unfoldable pub pop_fresh : ℕ → List (ℕ × S) → Option S × List (ℕ × S)
  pop_fresh now [] = (none, [])
  pop_fresh now ((at, stream) ∷ q) =
      let rest = pop_fresh now q in if ltb (now - at) max_idle_age then (some stream, q) else rest

  abbrev pub fill : ℕ → PoolState S → PoolState S
  fill n v = record v { tasks = v.tasks ++ replicate n started }

  abbrev pub left : Option (FillTask S) → List (FillTask S)
  left none = []
  left (some t) = t ∷ []

module _ {S E : Type 0} where
  abbrev pub or_dial : Result S E → Option S → Result S E
  or_dial answer none = answer
  or_dial answer (some stream) = ok stream

  -- `take` with the clock and what its own dial answers.
  unfoldable pub take : ℕ → Result S E → PoolState S → Result S E × PoolState S
  take now answer v =
      let (found, q) = pop_fresh now v.pool.idle in
      (or_dial answer found, fill 1 (record v { pool = record v.pool { idle = q } }))

  dial_result : Result S E → Option (FillTask S)
  dial_result (ok stream) = some (dialed stream)
  dial_result (err e) = none

  -- The next step of `fill_one`; without a task left it has returned.
  unfoldable pub fill_one :
      ℕ → Result S E → FillTask S → IdlePool S → Option (FillTask S) × IdlePool S
  unfolding dial_result
  fill_one now answer started p = (if leb p.max_idle (length p.idle) then none else some looked, p)
  fill_one now answer looked p = (
    some (if leb p.max_idle p.filling then backing else dialing),
    record p { filling = fetch_add p.filling },
  )
  fill_one now answer backing p = (none, record p { filling = fetch_sub p.filling })
  fill_one now answer dialing p = (dial_result answer, record p { filling = fetch_sub p.filling })
  fill_one now answer (dialed stream) p = (
    none,
    if ltb (length p.idle) p.max_idle
        then record p { idle = p.idle ++ ((now, stream) ∷ []) }
        else p,
  )

  -- One task of the pool takes its next step.
  unfoldable pub resume :
      ℕ → Result S E → List (FillTask S) → FillTask S → List (FillTask S) → IdlePool S → PoolState S
  resume now answer before t after p =
      let (rest, q) = fill_one now answer t p in
      record { pool = q; tasks = before ++ (left rest ++ after) }

module _ (S E : Type 0) where
  -- A task takes up memory, so there are never more of them than a usize counts.
  pub data Step : PoolState S → PoolState S → Type 0 where
    takes :
        (now : ℕ) (answer : Result S E) (v : PoolState S)
        → length v.tasks < usize_max
        → Step v (take now answer v).1
    fills : (n : ℕ) (v : PoolState S) → length v.tasks + n ≤ usize_max → Step v (fill n v)
    resumes :
        (now : ℕ) (answer : Result S E) (before : List (FillTask S)) (t : FillTask S)
        (after : List (FillTask S)) (p : IdlePool S)
        → Step
            (record { pool = p; tasks = before ++ (t ∷ after) })
            (resume now answer before t after p)

  pub data Reach : PoolState S → Type 0 where
    opens : (n : ℕ) → Reach (record { pool = new n; tasks = [] })
    then : {v w : PoolState S} → Reach v → Step v w → Reach w
