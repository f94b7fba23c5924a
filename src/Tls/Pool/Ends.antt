-- ===== src/Tls/Pool/Ends.antt =====
-- The fill tasks end, and the counter is back at zero.
use easy_connection.Prelude.{
  ℕ, zero, suc, ◌+◌, ◌*◌, ◌≤◌, ◌≡◌, arith, leb, List, [], ◌∷◌, ◌++◌, Option, Result, ok, err,
  length, Bool-cases, inl, inr,
}
use easy_connection.Tls.Pool.{
  IdlePool, PoolState, FillTask, started, looked, dialing, dialed, backing, fill_one, left, resume,
  Reach, then, resumes,
}
use easy_connection.Tls.Pool.Bounds.{total, moved, Reach-Bounded}

module _ {S : Type 0} where
  -- How many steps a task has before it at most.
  abbrev pub steps_left : FillTask S → ℕ
  steps_left started = 4
  steps_left looked = 3
  steps_left dialing = 2
  steps_left (dialed _) = 1
  steps_left backing = 1

  steps_left-le : (ts : List (FillTask S)) → total steps_left ts ≤ 4 * length ts
  steps_left-le [] = omega arith
  steps_left-le (started ∷ ts) = omega (arith, steps_left-le ts)
  steps_left-le (looked ∷ ts) = omega (arith, steps_left-le ts)
  steps_left-le (dialing ∷ ts) = omega (arith, steps_left-le ts)
  steps_left-le (dialed _ ∷ ts) = omega (arith, steps_left-le ts)
  steps_left-le (backing ∷ ts) = omega (arith, steps_left-le ts)

  shorter :
      (before : List (FillTask S)) (t : FillTask S) (after : List (FillTask S))
      (rest : Option (FillTask S))
      → suc (total steps_left (left rest)) ≤ steps_left t
      → suc (total steps_left (before ++ (left rest ++ after)))
        ≤ total steps_left (before ++ (t ∷ after))
  shorter before t after rest h = omega (arith, h, moved before t after rest steps_left)

-- A run of the fill tasks alone, each step of one of them, in any order.
pub data Run (S E : Type 0) : ℕ → PoolState S → PoolState S → Type 0 where
  halts : (v : PoolState S) → Run S E 0 v v
  goes :
      {n : ℕ} {w : PoolState S} (now : ℕ) (answer : Result S E) (before : List (FillTask S))
      (t : FillTask S) (after : List (FillTask S)) (p : IdlePool S)
      → Run S E n (resume now answer before t after p) w
      → Run S E (suc n) (record { pool = p; tasks = before ++ (t ∷ after) }) w

module _ {S E : Type 0} where
  less :
      (now : ℕ) (answer : Result S E) (t : FillTask S) (p : IdlePool S)
      → suc (total steps_left (left (fill_one now answer t p).0)) ≤ steps_left t
  unfolding fill_one
  less now answer started p = elim (Bool-cases (leb p.max_idle (length p.idle))) [
    | inl e ↦ simp e (omega arith)
    | inr e ↦ simp e (omega arith)
  ]
  less now answer looked p = elim (Bool-cases (leb p.max_idle p.filling)) [
    | inl e ↦ simp e (omega arith)
    | inr e ↦ simp e (omega arith)
  ]
  less now answer backing p = omega arith
  less now (ok stream) dialing p = omega arith
  less now (err e) dialing p = omega arith
  less now answer (dialed stream) p = omega arith

  Run-shorter :
      {n : ℕ} {v w : PoolState S}
      → Run S E n v w
      → n + total steps_left w.tasks ≤ total steps_left v.tasks
  unfolding resume
  Run-shorter (halts v) = omega arith
  Run-shorter (goes now answer before t after p r) = omega (
    arith,
    Run-shorter r,
    shorter before t after (fill_one now answer t p).0 (less now answer t p),
  )

  Run-Reach : {n : ℕ} {v w : PoolState S} → Run S E n v w → Reach S E v → Reach S E w
  Run-Reach (halts v) h = h
  Run-Reach (goes now answer before t after p r) h =
      Run-Reach r (then h (resumes now answer before t after p))

  -- The pool when its oldest task goes first, each time with the same answer of the dial.
  drained :
      (m now : ℕ) (answer : Result S E) (ts : List (FillTask S)) (p : IdlePool S)
      → total steps_left ts ≤ m
      → (n : ℕ) × (q : IdlePool S) × Run S E n
          (record { pool = p; tasks = ts })
          (record { pool = q; tasks = [] })
  unfolding resume
  drained m now answer [] p h = (0, p, halts _)
  drained zero now answer (t ∷ ts) p h = absurd (omega (arith, h, less now answer t p))
  drained (suc m) now answer (t ∷ ts) p h =
      let r =
        drained m now answer (left (fill_one now answer t p).0 ++ ts) (fill_one now answer t p).1
          (omega (arith, h, shorter [] t ts (fill_one now answer t p).0 (less now answer t p))) in
      (suc r.0, r.1, goes now answer [] t ts p r.2)

  -- However far the fill tasks of a pool have run, in any order and with any answers of the dials,
  -- the tasks that are left can be run to their end, even if every later dial has the same answer;
  -- together these are at most four steps for each task that there was, and at the end `filling` is
  -- zero and the queue within its limit.
  pub fill_tasks_end :
      {n : ℕ} {v w : PoolState S} (now : ℕ) (answer : Result S E)
      → Reach S E v
      → Run S E n v w
      → (m : ℕ) × (q : IdlePool S) × Run S E m w (record { pool = q; tasks = [] })
        × (n + m ≤ 4 * length v.tasks)
        × (q.filling ≡ 0)
        × (length q.idle ≤ q.max_idle)
  fill_tasks_end {v} {w} now answer h r =
      let x = drained (total steps_left w.tasks) now answer w.tasks w.pool (omega arith) in
      let b = Reach-Bounded (Run-Reach x.2 (Run-Reach r h)) in
      (
        x.0,
        x.1,
        x.2,
        omega (arith, Run-shorter r, Run-shorter x.2, steps_left-le v.tasks),
        b.filling_exact,
        b.idle_within,
      )
