-- ===== src/Helper/Frame/Chunks.antt =====
-- What `send_loop` sends, cut into chunks.
use easy_connection.Prelude.{
  ℕ, ◌≡◌, ◌≢◌, ◌⊎◌, ◌∙◌, ap, inl, inr, refl, arith, Bool-cases, Option, none, List, [], ◌∷◌, ◌++◌,
  ◌==◌, take, drop, Bytes, All, take-append-drop,
}
use easy_connection.Helper.Frame.{
  Chunk, SendAnswer, wrote, send_again, send_failed, Sending, waiting, sent, send_error, before,
  send_loop,
}

abbrev pub joined : List Chunk → Bytes
joined [] = []
joined (c ∷ cs) = c.bytes ++ joined cs

-- No chunk carries a descriptor.
abbrev pub Plain : List Chunk → Type 0
Plain = All (λ c. c.fd ≡ none)

-- The first chunk alone carries the descriptor, if there is one.
abbrev pub Carries : Option ℕ → List Chunk → Type 0
Carries fd [] = fd ≡ none
Carries fd (c ∷ cs) = (c.fd ≡ fd) × Plain cs

abbrev pub Full : List Chunk → Type 0
Full = All (λ c. c.bytes ≢ [])

-- A loop that ends with chunks has put one in front of the chunks of the loop after it.
before_sent :
    (c : Chunk) (later : Sending) (cs : List Chunk)
    → before c later ≡ sent cs
    → (ds : List Chunk) × (later ≡ sent ds) × (cs ≡ c ∷ ds)
before_sent c waiting cs h = cc
before_sent c (sent ds) cs h = (ds, refl, ground arith)
before_sent c (send_error e) cs h = cc

-- One call that takes bytes.
wrote_sent :
    (n b : ℕ) (bs : Bytes) (answers : List SendAnswer) (fd : Option ℕ) (cs : List Chunk)
    → send_loop (wrote n ∷ answers) (b ∷ bs) fd ≡ sent cs
    → (ds : List Chunk) × (send_loop answers (drop n (b ∷ bs)) none ≡ sent ds)
      × (cs ≡ record { bytes = take n (b ∷ bs); fd = fd } ∷ ds)
unfolding send_loop
wrote_sent n b bs answers fd cs h = elim (Bool-cases (n == 0)) [
  | inl e ↦ absurd (cc (rw e at h))
  | inr e ↦ before_sent (record { bytes = take n (b ∷ bs); fd = fd }) _ cs (rw e at h)
]

-- What the loop has sent when it ends is what it was given, in order, and only the first chunk
-- has the descriptor.
pub send_loop_sent :
    (answers : List SendAnswer) (rest : Bytes) (fd : Option ℕ) (cs : List Chunk)
    → send_loop answers rest fd ≡ sent cs
    → (joined cs ≡ rest) × ((cs ≡ []) ⊎ Carries fd cs)
unfolding send_loop
send_loop_sent answers [] fd cs h = ground arith
send_loop_sent [] (b ∷ bs) fd cs h = cc
send_loop_sent (send_again ∷ answers) (b ∷ bs) fd cs h = send_loop_sent answers (b ∷ bs) fd cs h
send_loop_sent (send_failed ∷ answers) (b ∷ bs) fd cs h = cc
send_loop_sent (wrote n ∷ answers) (b ∷ bs) fd cs h =
    let (ds, later, e) = wrote_sent n b bs answers fd cs h in
    let (j, f) = send_loop_sent answers (drop n (b ∷ bs)) none ds later in
    rw e (ap (λ x. take n (b ∷ bs) ++ x) j ∙ take-append-drop n (b ∷ bs), inr (refl, plain ds f))
  where
    plain : (ds : List Chunk) → (ds ≡ []) ⊎ Carries none ds → Plain ds
    plain [] f = tt
    plain (d ∷ ds) (inl e) = cc
    plain (d ∷ ds) (inr (e, p)) = (e, p)
