-- ===== src/Shadowsocks/Aead/Chunks.antt =====
-- The chunks of what is read are what is read.
use easy_connection.Prelude.{
  ℕ, zero, suc, ◌≡◌, ◌<◌, ◌≤◌, ◌∙◌, sym, ap, refl, arith, List, [], ◌∷◌, ◌++◌, append_assoc, Bytes,
  length, take, drop, All, length-take, length-drop, take-append-drop,
}
use easy_connection.Shadowsocks.Aead.{max_chunk, chunks, chunks_of}

abbrev pub joined : List Bytes → Bytes
joined [] = []
joined (b ∷ bs) = b ++ joined bs

abbrev pub IsChunk : Bytes → Type 0
IsChunk b = (0 < length b) × (length b ≤ max_chunk)

pub chunks_joined :
    (fuel : ℕ) (xs : Bytes)
    → length xs ≤ fuel
    → All IsChunk (chunks fuel xs) × (joined (chunks fuel xs) ≡ xs)
unfolding chunks
chunks_joined zero [] h = (tt, refl)
chunks_joined zero (x ∷ xs) h = absurd (omega arith)
chunks_joined (suc fuel) [] h = (tt, refl)
chunks_joined (suc fuel) (x ∷ xs) h =
    let (a, j) =
      chunks_joined fuel (drop max_chunk (x ∷ xs))
        (omega (arith, length-drop max_chunk (x ∷ xs))) in
    (
      (
        (
          omega (arith, length-take max_chunk (x ∷ xs)),
          omega (arith, length-take max_chunk (x ∷ xs)),
        ),
        a,
      ),
      ap (λ s. take max_chunk (x ∷ xs) ++ s) j ∙ take-append-drop max_chunk (x ∷ xs),
    )

All-append : (P : Bytes → Type 0) (xs ys : List Bytes) → All P xs → All P ys → All P (xs ++ ys)
All-append P [] ys a b = b
All-append P (x ∷ xs) ys (p, a) b = (p, All-append P xs ys a b)

joined-append : (xs ys : List Bytes) → joined (xs ++ ys) ≡ joined xs ++ joined ys
joined-append [] ys = refl
joined-append (x ∷ xs) ys =
    ap (λ s. x ++ s) (joined-append xs ys) ∙ sym (append_assoc x (joined xs) (joined ys))

pub chunks_of-joined :
    (reads : List Bytes) → All IsChunk (chunks_of reads) × (joined (chunks_of reads) ≡ joined reads)
chunks_of-joined [] = (tt, refl)
chunks_of-joined (plain ∷ reads) =
    let (a, j) = chunks_joined (length plain) plain (omega arith) in
    let (b, k) = chunks_of-joined reads in
    (
      All-append IsChunk (chunks (length plain) plain) (chunks_of reads) a b,
      joined-append (chunks (length plain) plain) (chunks_of reads)
          ∙ ap (λ s. s ++ joined (chunks_of reads)) j
          ∙ ap (λ s. plain ++ s) k,
    )
