-- ===== src/Helper/Frame/Delivery.antt =====
-- A frame arrives whole, with its descriptor, however the socket cuts it.
use easy_connection.Prelude.{
  ℕ, zero, suc, ◌+◌, ◌≡◌, ◌≤◌, ◌<◌, ◌⊎◌, ◌∙◌, sym, ap, inl, inr, refl, arith, false, Bool-cases,
  Option, none, List, [], ◌∷◌, ◌++◌, ltb, length, take, drop, Bytes, u32_to_be, u32_from_be,
  length-append, take-append, length-drop,
}
use mathlib.Core.Path.{subst}
use easy_connection.Helper.Frame.{
  max_frame, Chunk, SendAnswer, sent, framed, send_frame, RecvAnswer, Filling, fill, Receiving,
  received, cut_frame, read_body, recv_frame,
}
use easy_connection.Helper.Frame.Chunks.{joined, Carries, send_loop_sent}
use easy_connection.Helper.Frame.Filled.{Brings, Tagged, Filled, fill-Filled}

u32_back : (n : ℕ) → n < 4294967296 → u32_from_be (u32_to_be n) ≡ n
u32_back n h = omega arith

take_front : (k : ℕ) (b c : Bytes) → k ≤ length b → take k (b ++ c) ≡ take k b
take_front zero b c h = refl
take_front (suc k) [] c h = absurd (omega arith)
take_front (suc k) (x ∷ b) c h = ap (◌∷◌ x) (take_front k b c (omega arith))

drop_front : (k : ℕ) (b c : Bytes) → k ≤ length b → drop k (b ++ c) ≡ drop k b ++ c
drop_front zero b c h = refl
drop_front (suc k) [] c h = absurd (omega arith)
drop_front (suc k) (x ∷ b) c h = drop_front k b c (omega arith)

-- A buffer that has a whole frame gives its payload.
cut_payload :
    (payload extra buf more : Bytes)
    → buf ++ more ≡ framed payload ++ extra
    → 4 + length payload ≤ length buf
    → take (length payload) (drop 4 buf) ≡ payload
cut_payload payload extra buf more e h =
    sym (take_front (length payload) (drop 4 buf) more (omega (arith, length-drop 4 buf)))
    ∙ ap (take (length payload)) (sym (drop_front 4 buf more (omega arith)) ∙ ap (drop 4) e)
    ∙ take-append payload extra

cut_length :
    (payload extra buf more : Bytes)
    → buf ++ more ≡ framed payload ++ extra
    → length payload ≤ max_frame
    → 4 ≤ length buf
    → u32_from_be (take 4 buf) ≡ length payload
cut_length payload extra buf more e m h =
    ap u32_from_be (sym (take_front 4 buf more h) ∙ ap (take 4) e)
    ∙ u32_back (length payload) (omega arith)

Tagged-kept :
    (fd : Option ℕ) (buf : Bytes) (kept : Option ℕ) (cs : List Chunk)
    → 4 ≤ length buf
    → Tagged fd buf kept cs
    → kept ≡ fd
Tagged-kept fd [] kept cs h t = absurd (omega arith)
Tagged-kept fd (b ∷ bs) kept cs h t = t.0

module _ (payload extra : Bytes) (fd : Option ℕ) (fits : length payload ≤ max_frame) where
  abbrev Delivered : Receiving → Type 0
  Delivered r =
      (left : List RecvAnswer) × (r ≡ received (record { payload = payload; fd = fd }) left)

  cut_frame-Delivered :
      (f : Filling)
      → Filled (4 + length payload) fd (framed payload ++ extra) f
      → Delivered (cut_frame (length payload) f)
  unfolding cut_frame
  cut_frame-Delivered f v =
      let t : v.kept ≡ fd =
        Tagged-kept fd v.buf v.kept v.chunks (omega (arith, v.enough)) v.tagged in
      let p : take (length payload) (drop 4 v.buf) ≡ payload =
        cut_payload payload extra v.buf (joined v.chunks) v.whole v.enough in
      (v.left, ap (cut_frame (length payload)) v.ended ∙ rw (p, t) refl)

  read_body-Delivered :
      (f : Filling) → Filled 4 fd (framed payload ++ extra) f → Delivered (read_body f)
  unfolding read_body
  read_body-Delivered f v =
      let n : u32_from_be (take 4 v.buf) ≡ length payload =
        cut_length payload extra v.buf (joined v.chunks) v.whole fits v.enough in
      let small : ltb max_frame (length payload) ≡ false = ground arith in
      let more =
        fill-Filled (4 + length payload) fd v.buf v.kept v.brings
          (rw v.whole (omega (arith, length-append payload extra))) v.tagged in
      let rest = fill (4 + length payload) v.left v.buf v.kept in
      let reads : read_body f ≡ cut_frame (length payload) rest =
        ap read_body v.ended ∙ rw (n, small) refl in
      subst Delivered (sym reads)
        (cut_frame-Delivered rest (subst (λ x. Filled (4 + length payload) fd x rest) v.whole more))

  recv_frame-framed :
      {xs : List RecvAnswer} {cs : List Chunk}
      → Brings xs cs
      → joined cs ≡ framed payload ++ extra
      → Carries fd cs
      → Delivered (recv_frame xs)
  unfolding recv_frame
  recv_frame-framed {xs} {cs} b e c = read_body-Delivered (fill 4 xs [] none) (
      subst (λ x. Filled 4 fd x (fill 4 xs [] none)) e
        (fill-Filled 4 fd [] none b (rw e (omega (arith, length-append payload extra))) (refl, c)))

-- A frame that `send_frame` has sent is the length of the payload and the payload, cut into chunks
-- of which the first alone has the descriptor; and `recv_frame` reads the payload and the
-- descriptor from any chunks that bring these bytes with anything behind them, however they are
-- cut and whatever retries come between.
pub recv_frame-send_frame :
    {xs : List RecvAnswer} {cs ds : List Chunk} (answers : List SendAnswer) (payload extra : Bytes)
    (fd : Option ℕ)
    → send_frame answers payload fd ≡ sent ds
    → Brings xs cs
    → joined cs ≡ joined ds ++ extra
    → Carries fd cs
    → (joined ds ≡ framed payload)
      × Carries fd ds
      × ((left : List RecvAnswer) × (recv_frame xs
            ≡ received (record { payload = payload; fd = fd }) left))
unfolding send_frame
recv_frame-send_frame {xs} {cs} {ds} answers payload extra fd h b e c =
    elim (Bool-cases (ltb max_frame (length payload))) [
      | inl l ↦ absurd (cc (rw l at h))
      | inr l ↦
          let (j, f) = send_loop_sent answers (framed payload) fd ds (rw l at h) in
          (
            j,
            carries ds j f,
            recv_frame-framed payload extra fd (ground arith) b (e ∙ ap (λ x. x ++ extra) j) c,
          )
    ]
  where
    carries :
        (ds : List Chunk) → joined ds ≡ framed payload → (ds ≡ []) ⊎ Carries fd ds → Carries fd ds
    carries [] j f = cc
    carries (d ∷ ds) j (inl e) = cc
    carries (d ∷ ds) j (inr f) = f
