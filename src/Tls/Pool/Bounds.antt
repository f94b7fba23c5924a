-- ===== src/Tls/Pool/Bounds.antt =====
-- How much the pool holds and dials at once.
use easy_connection.Prelude.{
  ℕ, zero, suc, ◌+◌, ◌≤◌, ◌<◌, ◌≡◌, refl, arith, leb, ltb, Option, none, some, List, [], ◌∷◌, ◌++◌,
  Result, ok, err, length, replicate, length-append, length-replicate, Bool-cases, inl, inr,
}
use easy_connection.Tls.Pool.{
  usize_max, IdlePool, PoolState, FillTask, started, looked, dialing, dialed, backing, pop_fresh,
  fill, take, fill_one, left, resume, Step, takes, fills, resumes, Reach, opens, then,
}

module _ {S : Type 0} where
  abbrev in_dial : FillTask S → ℕ
  in_dial started = 0
  in_dial looked = 0
  in_dial dialing = 1
  in_dial (dialed _) = 0
  in_dial backing = 0

  -- The tasks that are counted in `filling`.
  abbrev counted : FillTask S → ℕ
  counted started = 0
  counted looked = 0
  counted dialing = 1
  counted (dialed _) = 0
  counted backing = 1

  abbrev pub total : (FillTask S → ℕ) → List (FillTask S) → ℕ
  total f [] = 0
  total f (t ∷ ts) = f t + total f ts

  pub total-append :
      (f : FillTask S → ℕ) (ts us : List (FillTask S))
      → total f (ts ++ us) ≡ total f ts + total f us
  total-append f [] us = omega arith
  total-append f (t ∷ ts) us = omega (arith, total-append f ts us)

  abbrev pub dials : PoolState S → ℕ
  dials v = total in_dial v.tasks

  abbrev pub counts : PoolState S → ℕ
  counts v = total counted v.tasks

  counted-le : (ts : List (FillTask S)) → total counted ts ≤ length ts
  counted-le [] = omega arith
  counted-le (started ∷ ts) = omega (arith, counted-le ts)
  counted-le (looked ∷ ts) = omega (arith, counted-le ts)
  counted-le (dialing ∷ ts) = omega (arith, counted-le ts)
  counted-le (dialed _ ∷ ts) = omega (arith, counted-le ts)
  counted-le (backing ∷ ts) = omega (arith, counted-le ts)

  -- New tasks are neither counted nor in a dial.
  total-replicate : (f : FillTask S → ℕ) (n : ℕ) → f started ≡ 0 → total f (replicate n started) ≡ 0
  total-replicate f zero e = refl
  total-replicate f (suc n) e = omega (arith, e, total-replicate f n e)

  length-pop_fresh : (now : ℕ) (idle : List (ℕ × S)) → length (pop_fresh now idle).1 ≤ length idle
  unfolding pop_fresh
  length-pop_fresh now [] = omega arith
  length-pop_fresh now ((at, stream) ∷ q) = ground (arith, length-pop_fresh now q)

  -- The queue and the dials are within the limit, and the counter is the number of tasks that are
  -- counted.
  pub record Bounded (v : PoolState S) : Type 0 where
    pub holds_one : 1 ≤ v.pool.max_idle
    pub idle_within : length v.pool.idle ≤ v.pool.max_idle
    pub dials_within : dials v ≤ v.pool.max_idle
    pub filling_exact : v.pool.filling ≡ counts v
    pub few_tasks : length v.tasks ≤ usize_max

  fill-Bounded :
      (n : ℕ) (v : PoolState S) → length v.tasks + n ≤ usize_max → Bounded v → Bounded (fill n v)
  fill-Bounded n v h b = record {
    holds_one = b.holds_one;
    idle_within = b.idle_within;
    dials_within = omega (
      arith,
      b.dials_within,
      total-append in_dial v.tasks (replicate n started),
      total-replicate in_dial n refl,
    );
    filling_exact = omega (
      arith,
      b.filling_exact,
      total-append counted v.tasks (replicate n started),
      total-replicate counted n refl,
    );
    few_tasks = omega (
      arith,
      h,
      length-append v.tasks (replicate n started),
      length-replicate {A = FillTask S} n started,
    );
  }

  popped-Bounded :
      (now : ℕ) (v : PoolState S)
      → Bounded v
      → Bounded (record v { pool = record v.pool { idle = (pop_fresh now v.pool.idle).1 } })
  popped-Bounded now v b = record {
    holds_one = b.holds_one;
    idle_within = omega (arith, b.idle_within, length-pop_fresh now v.pool.idle);
    dials_within = b.dials_within;
    filling_exact = b.filling_exact;
    few_tasks = b.few_tasks;
  }

  -- What a step of a task does to the sums over the tasks.
  abbrev pub Moved :
      List (FillTask S)
      → FillTask S
      → List (FillTask S)
      → Option (FillTask S)
      → (FillTask S → ℕ)
      → Type 0
  Moved before t after rest f =
      total f (before ++ (left rest ++ after)) + f t
      ≡ total f (before ++ (t ∷ after)) + total f (left rest)

  pub moved :
      (before : List (FillTask S)) (t : FillTask S) (after : List (FillTask S))
      (rest : Option (FillTask S)) (f : FillTask S → ℕ)
      → Moved before t after rest f
  moved before t after none f =
      omega (arith, total-append f before after, total-append f before (t ∷ after))
  moved before t after (some u) f =
      omega (arith, total-append f before (u ∷ after), total-append f before (t ∷ after))

  length-moved :
      (before : List (FillTask S)) (t : FillTask S) (after : List (FillTask S))
      (rest : Option (FillTask S))
      → length (before ++ (left rest ++ after)) ≤ length (before ++ (t ∷ after))
  length-moved before t after none =
      omega (arith, length-append before after, length-append before (t ∷ after))
  length-moved before t after (some u) =
      omega (arith, length-append before (u ∷ after), length-append before (t ∷ after))

  settle :
      (before : List (FillTask S)) (t : FillTask S) (after : List (FillTask S))
      (rest : Option (FillTask S)) (p q : IdlePool S)
      → Bounded (record { pool = p; tasks = before ++ (t ∷ after) })
      → q.max_idle ≡ p.max_idle
      → length q.idle ≤ p.max_idle
      → total in_dial (before ++ (t ∷ after)) + total in_dial (left rest) ≤ p.max_idle + in_dial t
      → q.filling + counted t ≡ p.filling + total counted (left rest)
      → Bounded (record { pool = q; tasks = before ++ (left rest ++ after) })
  settle before t after rest p q b same idle d f = record {
    holds_one = omega (arith, b.holds_one, same);
    idle_within = omega (arith, idle, same);
    dials_within = omega (arith, d, same, moved before t after rest in_dial);
    filling_exact = omega (arith, f, b.filling_exact, moved before t after rest counted);
    few_tasks = omega (arith, b.few_tasks, length-moved before t after rest);
  }

  counts_less :
      (before : List (FillTask S)) (after : List (FillTask S)) (p : IdlePool S)
      → Bounded (record { pool = p; tasks = before ++ (looked ∷ after) })
      → p.filling < usize_max
  counts_less before after p b = omega (
    arith,
    b.filling_exact,
    b.few_tasks,
    total-append counted before (looked ∷ after),
    length-append before (looked ∷ after),
    counted-le before,
    counted-le after,
  )

  -- A task is one of those that a sum is taken over.
  part :
      (f : FillTask S → ℕ) (before : List (FillTask S)) (t : FillTask S) (after : List (FillTask S))
      → f t ≤ total f (before ++ (t ∷ after))
  part f before t after = omega (arith, total-append f before (t ∷ after))

  dials-counts : (ts : List (FillTask S)) → total in_dial ts ≤ total counted ts
  dials-counts [] = omega arith
  dials-counts (started ∷ ts) = omega (arith, dials-counts ts)
  dials-counts (looked ∷ ts) = omega (arith, dials-counts ts)
  dials-counts (dialing ∷ ts) = omega (arith, dials-counts ts)
  dials-counts (dialed _ ∷ ts) = omega (arith, dials-counts ts)
  dials-counts (backing ∷ ts) = omega (arith, dials-counts ts)

module _ {S E : Type 0} where
  resume-Bounded :
      (now : ℕ) (answer : Result S E) (before : List (FillTask S)) (t : FillTask S)
      (after : List (FillTask S)) (p : IdlePool S)
      → Bounded (record { pool = p; tasks = before ++ (t ∷ after) })
      → Bounded (resume now answer before t after p)
  unfolding resume fill_one
  resume-Bounded now answer before started after p b =
      elim (Bool-cases (leb p.max_idle (length p.idle))) [
        | inl e ↦ simp e (
            settle before started after none p p b refl b.idle_within
              (omega (arith, b.dials_within)) (omega arith))
        | inr e ↦ simp e (
            settle before started after (some looked) p p b refl b.idle_within
              (omega (arith, b.dials_within)) (omega arith))
      ]
  resume-Bounded now answer before looked after p b = elim (Bool-cases (leb p.max_idle p.filling)) [
    | inl e ↦ simp e (
        settle before looked after (some backing) p _ b refl b.idle_within
          (omega (arith, b.dials_within)) (ground (arith, counts_less before after p b)))
    | inr e ↦ simp e (
        settle before looked after (some dialing) p _ b refl b.idle_within
          (ground (arith, e, b.filling_exact, dials-counts (before ++ (looked ∷ after))))
          (ground (arith, counts_less before after p b)))
  ]
  resume-Bounded now answer before backing after p b =
      settle before backing after none p _ b refl b.idle_within (omega (arith, b.dials_within))
        (ground (arith, b.filling_exact, part counted before backing after))
  resume-Bounded now (ok stream) before dialing after p b =
      settle before dialing after (some (dialed stream)) p _ b refl b.idle_within
        (omega (arith, b.dials_within))
        (ground (arith, b.filling_exact, part counted before dialing after))
  resume-Bounded now (err e) before dialing after p b =
      settle before dialing after none p _ b refl b.idle_within (omega (arith, b.dials_within))
        (ground (arith, b.filling_exact, part counted before dialing after))
  resume-Bounded now answer before (dialed stream) after p b =
      elim (Bool-cases (ltb (length p.idle) p.max_idle)) [
        | inl e ↦ simp e (
            settle before (dialed stream) after none p _ b refl
              (ground (arith, e, length-append p.idle ((now, stream) ∷ [])))
              (omega (arith, b.dials_within)) (omega arith))
        | inr e ↦ simp e (
            settle before (dialed stream) after none p p b refl b.idle_within
              (omega (arith, b.dials_within)) (omega arith))
      ]

  Step-Bounded : {v w : PoolState S} → Step S E v w → Bounded v → Bounded w
  unfolding take
  Step-Bounded (takes now answer v h) b =
      fill-Bounded 1 _ (omega (arith, h)) (popped-Bounded now v b)
  Step-Bounded (fills n v h) b = fill-Bounded n v h b
  Step-Bounded (resumes now answer before t after p) b =
      resume-Bounded now answer before t after p b

  -- Whatever tasks take, fill and dial, in any order of their steps, the queue holds no more than
  -- `max_idle` transports, which is at least one, no more than `max_idle` fill tasks dial at once, and
  -- `filling` is the number of those that have raised it and not lowered it, so it never wraps.
  pub Reach-Bounded : {v : PoolState S} → Reach S E v → Bounded v
  Reach-Bounded (opens n) = record {
    holds_one = ground arith;
    idle_within = ground arith;
    dials_within = ground arith;
    filling_exact = refl;
    few_tasks = omega arith;
  }
  Reach-Bounded (then r t) = Step-Bounded t (Reach-Bounded r)
