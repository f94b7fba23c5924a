-- ===== src/Helper/Frame/Filled.antt =====
-- The loop that reads chunks, with what the socket brings.
use easy_connection.Prelude.{
  ℕ, ◌≡◌, ◌≢◌, ◌≤◌, ◌<◌, ◌⊎◌, ◌∙◌, sym, inl, inr, refl, arith, true, false, Option, none, some,
  List, [], ◌∷◌, ◌++◌, append_assoc, ltb, is_empty, length, Bytes, length-append,
}
use mathlib.Core.Path.{subst}
use easy_connection.Helper.Frame.{
  Chunk, RecvAnswer, got, recv_again, recv_failed, Filling, filled, keep_fd, fill,
}
use easy_connection.Helper.Frame.Chunks.{joined, Plain, Carries}

-- The answers to `recvmsg` that bring these chunks, with retries between them.
pub data Brings : List RecvAnswer → List Chunk → Type 0 where
  done : Brings [] []
  retry : {xs : List RecvAnswer} {cs : List Chunk} → Brings xs cs → Brings (recv_again ∷ xs) cs
  chunk :
      {xs : List RecvAnswer} {cs : List Chunk} (c : Chunk)
      → c.bytes ≢ []
      → Brings xs cs
      → Brings (got c ∷ xs) (c ∷ cs)

-- The descriptor that was kept, and those still to come.
abbrev pub Tagged : Option ℕ → Bytes → Option ℕ → List Chunk → Type 0
Tagged fd [] kept cs = (kept ≡ none) × Carries fd cs
Tagged fd (b ∷ bs) kept cs = (kept ≡ fd) × Plain cs

-- A loop that ended with all that it needs, and what the socket still brings.
pub record Filled (need : ℕ) (fd : Option ℕ) (all : Bytes) (f : Filling) : Type 0 where
  pub buf : Bytes
  pub kept : Option ℕ
  pub left : List RecvAnswer
  pub chunks : List Chunk
  pub ended : f ≡ filled buf kept left
  pub enough : need ≤ length buf
  pub brings : Brings left chunks
  pub whole : buf ++ joined chunks ≡ all
  pub tagged : Tagged fd buf kept chunks

Tagged-chunk :
    (fd : Option ℕ) (buf : Bytes) (kept : Option ℕ) (c : Chunk) (cs : List Chunk)
    → c.bytes ≢ []
    → Tagged fd buf kept (c ∷ cs)
    → Tagged fd (buf ++ c.bytes) (keep_fd kept c.fd) cs
Tagged-chunk fd [] kept c cs ne (k, (e, p)) = go c.bytes ne
  where
    go : (bs : Bytes) → bs ≢ [] → Tagged fd bs (keep_fd kept c.fd) cs
    go [] n = absurd (n refl)
    go (b ∷ bs) n = (rw k e, p)
Tagged-chunk fd (b ∷ bs) kept c cs ne (k, (e, p)) = (keeps kept c.fd e ∙ k, p)
  where
    keeps : (kept new : Option ℕ) → new ≡ none → keep_fd kept new ≡ kept
    keeps none new e = e
    keeps (some x) new e = refl

fill_enough :
    (need : ℕ) (xs : List RecvAnswer) (buf : Bytes) (kept : Option ℕ)
    → need ≤ length buf
    → fill need xs buf kept ≡ filled buf kept xs
unfolding fill
fill_enough need [] buf kept h = ground arith
fill_enough need (recv_again ∷ xs) buf kept h = ground arith
fill_enough need (recv_failed ∷ xs) buf kept h = ground arith
fill_enough need (got c ∷ xs) buf kept h = ground arith

fill_again :
    (need : ℕ) (xs : List RecvAnswer) (buf : Bytes) (kept : Option ℕ)
    → length buf < need
    → fill need (recv_again ∷ xs) buf kept ≡ fill need xs buf kept
unfolding fill
fill_again need xs buf kept h = ground arith

fill_got :
    (need : ℕ) (c : Chunk) (xs : List RecvAnswer) (buf : Bytes) (kept : Option ℕ)
    → length buf < need
    → c.bytes ≢ []
    → fill need (got c ∷ xs) buf kept ≡ fill need xs (buf ++ c.bytes) (keep_fd kept c.fd)
unfolding fill
fill_got need c xs buf kept h ne =
    let e : is_empty c.bytes ≡ false = ground arith in
    let f : ltb (length buf) need ≡ true = ground arith in rw (f, e) refl

le_cases : (m n : ℕ) → (m ≤ n) ⊎ (n < m)
le_cases m n = omega arith

stopped :
    (need : ℕ) (fd : Option ℕ) (xs : List RecvAnswer) (cs : List Chunk) (buf : Bytes)
    (kept : Option ℕ)
    → Brings xs cs
    → Tagged fd buf kept cs
    → need ≤ length buf
    → Filled need fd (buf ++ joined cs) (fill need xs buf kept)
stopped need fd xs cs buf kept b t h = record {
  buf = buf;
  kept = kept;
  left = xs;
  chunks = cs;
  ended = fill_enough need xs buf kept h;
  enough = h;
  brings = b;
  whole = refl;
  tagged = t;
}

-- The loop ends with what it needs if the chunks bring it.
pub fill-Filled :
    {xs : List RecvAnswer} {cs : List Chunk} (need : ℕ) (fd : Option ℕ) (buf : Bytes)
    (kept : Option ℕ)
    → Brings xs cs
    → need ≤ length (buf ++ joined cs)
    → Tagged fd buf kept cs
    → Filled need fd (buf ++ joined cs) (fill need xs buf kept)
fill-Filled need fd buf kept done h t =
    stopped need fd [] [] buf kept done t (omega (arith, length-append buf []))
fill-Filled need fd buf kept (retry {xs} {cs} b) h t = elim (le_cases need (length buf)) [
  | inl n ↦ stopped need fd (recv_again ∷ xs) cs buf kept (retry b) t n
  | inr n ↦
      subst (Filled need fd (buf ++ joined cs)) (sym (fill_again need xs buf kept n))
        (fill-Filled need fd buf kept b h t)
]
fill-Filled need fd buf kept (chunk {xs} {cs} c ne b) h t = elim (le_cases need (length buf)) [
  | inl n ↦ stopped need fd (got c ∷ xs) (c ∷ cs) buf kept (chunk c ne b) t n
  | inr n ↦
      subst (Filled need fd (buf ++ (c.bytes ++ joined cs)))
        (sym (fill_got need c xs buf kept n ne))
        (rw (append_assoc buf c.bytes (joined cs)) at (
          fill-Filled need fd (buf ++ c.bytes) (keep_fd kept c.fd) b
            (rw (append_assoc buf c.bytes (joined cs)) h) (Tagged-chunk fd buf kept c cs ne t)))
]
