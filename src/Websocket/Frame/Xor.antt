-- ===== src/Websocket/Frame/Xor.antt =====
-- A mask taken twice gives the bytes back.
use easy_connection.Prelude.{
  ℕ, zero, suc, ◌+◌, ◌%◌, ◌≡◌, ◌<◌, ap, refl, arith, [], ◌∷◌, get_or, length, Bytes, IsBytes,
}
use easy_connection.Prelude.Bits.{xor_twice}
use easy_connection.Websocket.Frame.{apply_mask}

get_or-byte : (mask : Bytes) (i : ℕ) → IsBytes mask → get_or mask i 0 < 256
get_or-byte [] i h = omega arith
get_or-byte (b ∷ mask) zero (h, hs) = h
get_or-byte (b ∷ mask) (suc i) (h, hs) = get_or-byte mask i hs

pub apply_mask_twice :
    (mask : Bytes) (i : ℕ) (payload : Bytes)
    → IsBytes mask
    → IsBytes payload
    → apply_mask mask i (apply_mask mask i payload) ≡ payload
unfolding apply_mask
apply_mask_twice mask i [] h p = refl
apply_mask_twice mask i (b ∷ bs) h (p, ps) =
    rw (xor_twice b (get_or mask (i % 4) 0) p (get_or-byte mask (i % 4) h))
      (ap (◌∷◌ b) (apply_mask_twice mask (i + 1) bs h ps))

pub length-apply_mask :
    (mask : Bytes) (i : ℕ) (payload : Bytes) → length (apply_mask mask i payload) ≡ length payload
unfolding apply_mask
length-apply_mask mask i [] = refl
length-apply_mask mask i (b ∷ bs) = ap suc (length-apply_mask mask (i + 1) bs)
