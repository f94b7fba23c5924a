-- ===== src/Tls/Pool/Fresh.antt =====
-- Which transport `take` hands out.
use easy_connection.Prelude.{
  ℕ, ◌-◌, ◌≤◌, ◌<◌, ◌≡◌, refl, ap, arith, ltb, Option, none, some, List, [], ◌∷◌, ◌++◌, Result, ok,
  inl, inr, All, Bool-cases,
}
use easy_connection.Tls.Pool.{max_idle_age, PoolState, started, pop_fresh, or_dial, fill, take}

module _ {S : Type 0} where
  -- Too old at an instant.
  abbrev pub Stale : ℕ → ℕ × S → Type 0
  Stale now (at, stream) = max_idle_age ≤ now - at

  -- The oldest transport that is young enough, with what stood before and behind it; or there is
  -- none.
  abbrev pub Popped : ℕ → List (ℕ × S) → Option S × List (ℕ × S) → Type 0
  Popped now idle (none, q) = All (Stale now) idle × (q ≡ [])
  Popped now idle (some stream, q) =
      (old : List (ℕ × S)) × (at : ℕ) × All (Stale now) old
      × (now - at < max_idle_age)
      × (idle ≡ old ++ ((at, stream) ∷ q))

  past :
      (now at : ℕ) (stream : S) (idle : List (ℕ × S)) (x : Option S × List (ℕ × S))
      → Stale now (at, stream)
      → Popped now idle x
      → Popped now ((at, stream) ∷ idle) x
  past now at stream idle (none, q) old (olds, e) = ((old, olds), e)
  past now at stream idle (some s, q) old (olds, b, all, young, e) =
      ((at, stream) ∷ olds, b, (old, all), young, ap (◌∷◌ (at, stream)) e)

  pop_fresh-Popped : (now : ℕ) (idle : List (ℕ × S)) → Popped now idle (pop_fresh now idle)
  unfolding pop_fresh
  pop_fresh-Popped now [] = (tt, refl)
  pop_fresh-Popped now ((at, stream) ∷ q) = elim (Bool-cases (ltb (now - at) max_idle_age)) [
    | inl e ↦ simp e ([], at, tt, ground (arith, e), refl)
    | inr e ↦
        simp e (past now at stream q (pop_fresh now q) (ground (arith, e)) (pop_fresh-Popped now q))
  ]

  abbrev pub After : PoolState S → List (ℕ × S) → PoolState S → Type 0
  After v q w =
      (w.pool.idle ≡ q) × (w.pool.filling ≡ v.pool.filling) × (w.tasks ≡ v.tasks ++ (started ∷ []))

module _ {S E : Type 0} where
  -- What a take hands out and leaves behind, for what the search found.
  abbrev pub Taken :
      Result S E → PoolState S → Option S × List (ℕ × S) → Result S E × PoolState S → Type 0
  Taken answer v (none, q) (out, w) = (out ≡ answer) × After v q w
  Taken answer v (some stream, q) (out, w) = (out ≡ ok stream) × After v q w

  served :
      (answer : Result S E) (v : PoolState S) (x : Option S × List (ℕ × S))
      → Taken answer v x
          (or_dial answer x.0, fill 1 (record v { pool = record v.pool { idle = x.1 } }))
  served answer v (none, q) = (refl, (refl, refl, refl))
  served answer v (some stream, q) = (refl, (refl, refl, refl))

  -- A take hands out the oldest idle transport that is younger than 25 s, drops those before it,
  -- and leaves those behind it; where there is none, the queue is left empty and it answers what its
  -- own dial does. One fill task is started either way.
  pub take_fresh :
      (now : ℕ) (answer : Result S E) (v : PoolState S)
      → (x : Option S × List (ℕ × S)) × Popped now v.pool.idle x
        × Taken answer v x (take now answer v)
  unfolding take
  take_fresh now answer v = (
    pop_fresh now v.pool.idle,
    pop_fresh-Popped now v.pool.idle,
    served answer v (pop_fresh now v.pool.idle),
  )
