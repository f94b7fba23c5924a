-- ===== src/Helper/Frame/Progress.antt =====
-- Sending ends: a socket that goes on taking bytes gets the whole frame.
use easy_connection.Prelude.{
  ℕ, suc, ◌+◌, ◌≡◌, ◌≢◌, ◌≤◌, ◌<◌, ◌⊎◌, refl, arith, false, Bool-cases, inl, inr, Option, none,
  List, [], ◌∷◌, ltb, ◌==◌, length, take, drop, Bytes, All, length-drop,
}
use easy_connection.Helper.Frame.{
  max_frame, frame_too_large, Chunk, SendAnswer, wrote, send_again, send_failed, sent, send_error,
  send_loop, framed, send_frame,
}

-- The answer takes bytes or asks to try again.
abbrev pub Goes : SendAnswer → Type 0
Goes (wrote n) = n ≢ 0
Goes send_again = Unit {0}
Goes send_failed = ⊥

-- How many of the answers take bytes.
abbrev pub writes : List SendAnswer → ℕ
writes [] = 0
writes (wrote n ∷ answers) = suc (writes answers)
writes (send_again ∷ answers) = writes answers
writes (send_failed ∷ answers) = writes answers

send_loop_ends :
    (answers : List SendAnswer) (rest : Bytes) (fd : Option ℕ)
    → All Goes answers
    → length rest ≤ writes answers
    → (cs : List Chunk) × (send_loop answers rest fd ≡ sent cs)
unfolding send_loop
send_loop_ends answers [] fd g h = ([], refl)
send_loop_ends [] (b ∷ bs) fd g h = absurd (omega arith)
send_loop_ends (send_again ∷ answers) (b ∷ bs) fd (g, gs) h =
    send_loop_ends answers (b ∷ bs) fd gs h
send_loop_ends (send_failed ∷ answers) (b ∷ bs) fd (g, gs) h = absurd g
send_loop_ends (wrote n ∷ answers) (b ∷ bs) fd (g, gs) h =
    let e : (n == 0) ≡ false = ground arith in
    let (cs, f) =
      send_loop_ends answers (drop n (b ∷ bs)) none gs (omega (arith, length-drop n (b ∷ bs))) in
    (record { bytes = take n (b ∷ bs); fd = fd } ∷ cs, rw (e, f) refl)

-- Where every answer takes bytes or asks to try again, and as many of them take bytes as the frame
-- has, a payload of at most 2 ^ 20 bytes is sent; a longer one is refused at once.
pub send_frame_ends :
    (answers : List SendAnswer) (payload : Bytes) (fd : Option ℕ)
    → All Goes answers
    → length payload + 4 ≤ writes answers
    → ((length payload ≤ max_frame)
        × ((cs : List Chunk) × (send_frame answers payload fd ≡ sent cs)))
      ⊎ ((max_frame < length payload)
          × (send_frame answers payload fd ≡ send_error frame_too_large))
unfolding send_frame
send_frame_ends answers payload fd g h = elim (Bool-cases (ltb max_frame (length payload))) [
  | inl e ↦ inr (ground arith, rw e refl)
  | inr e ↦ inl (ground arith, rw e (send_loop_ends answers (framed payload) fd g (omega arith)))
]
