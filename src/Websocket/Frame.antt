-- ===== src/Websocket/Frame.antt =====
-- crates/websocket/src/ws.rs: `write_frame` and `read_data_frame`. A byte is a number, so `& 0x0f`
-- and the like are remainders. What `fill_bytes` gives is an argument.
pub mod Xor
pub mod RoundTrip
pub mod Beats
use Prim.Native.Nat.{bit_xor}
use easy_connection.Prelude.{
  ℕ, zero, suc, ◌+◌, ◌*◌, ◌/◌, ◌%◌, Bool, true, false, Option, none, some, List, [], ◌∷◌, ◌++◌,
  is_some, ltb, leb, ◌==◌, is_empty, if◌then◌else◌, length, get_or, Bytes, u16_to_be, u16_from, ok,
  err,
}
use easy_connection.Prelude.Io.{Conn, Action, ◌>>=◌, ◌>>◌, pure, throw, read_exact, write_all}

pub data WsError : Type 0 where
  io : WsError
  handshake : WsError
  protocol : WsError

-- `u64::to_be_bytes` and `u64::from_be_bytes`.
abbrev pub u64_to_be : ℕ → Bytes
u64_to_be n =
    n / 72057594037927936 % 256
    ∷ n / 281474976710656 % 256
    ∷ n / 1099511627776 % 256
    ∷ n / 4294967296 % 256
    ∷ n / 16777216 % 256
    ∷ n / 65536 % 256
    ∷ n / 256 % 256
    ∷ n % 256
    ∷ []

abbrev pub from_be : ℕ → Bytes → ℕ
from_be acc [] = acc
from_be acc (b ∷ bs) = from_be (acc * 256 + b) bs

-- Each byte with the byte of the mask at its place; `i` is the place of the first.
unfoldable pub apply_mask : Bytes → ℕ → Bytes → Bytes
apply_mask mask i [] = []
apply_mask mask i (b ∷ bs) = bit_xor b (get_or mask (i % 4) 0) ∷ apply_mask mask (i + 1) bs

abbrev pub mask_flag : Option Bytes → ℕ
mask_flag none = 0
mask_flag (some _) = 0x80

-- The length, behind the flag of the mask.
abbrev pub len_bytes : ℕ → ℕ → Bytes
len_bytes flag len =
    if ltb len 126
    then (flag + len) ∷ []
    else if leb len 65535
    then (flag + 126) ∷ u16_to_be len
    else (flag + 127) ∷ u64_to_be len

abbrev pub masked_payload : Option Bytes → Bytes → Bytes
masked_payload none payload = payload
masked_payload (some mask) payload = mask ++ apply_mask mask 0 payload

-- What `write_frame` writes, with the mask that was drawn if there is one.
unfoldable pub frame_bytes : Option Bytes → ℕ → Bytes → Bytes
unfolding apply_mask
frame_bytes mask opcode payload =
    (0x80 + opcode) ∷ (len_bytes (mask_flag mask) (length payload) ++ masked_payload mask payload)

abbrev pub read_u16 : Action WsError ℕ
read_u16 = do ext ← read_exact io 2; pure (u16_from (get_or ext 0 0) (get_or ext 1 0))

abbrev pub read_u64 : Action WsError ℕ
read_u64 = do ext ← read_exact io 8; pure (from_be 0 ext)

-- The length of a frame, from its second byte.
unfoldable pub read_len : ℕ → Action WsError ℕ
read_len len = if len == 126 then read_u16 else if len == 127 then read_u64 else pure len

unfoldable pub read_mask : Bool → Action WsError (Option Bytes)
read_mask true = do mask ← read_exact io 4; pure (some mask)
read_mask false = pure none

abbrev pub unmask : Option Bytes → Bytes → Bytes
unmask none payload = payload
unmask (some mask) payload = apply_mask mask 0 payload

unfoldable pub read_payload : ℕ → Option Bytes → Action WsError Bytes
unfolding apply_mask
read_payload len mask =
    if ltb 1000000 len
    then throw protocol
    else do payload ← read_exact io len; pure (unmask mask payload)

-- A frame: its opcode and its payload.
unfoldable pub read_frame : Action WsError (ℕ × Bytes)
unfolding read_len read_mask read_payload
read_frame = do
  hdr ← read_exact io 2
  len ← read_len (get_or hdr 1 0 % 128)
  mask ← read_mask (leb 128 (get_or hdr 1 0))
  payload ← read_payload len mask
  pure (get_or hdr 0 0 % 16, payload)

-- The match on the opcode; `next` is the next round of the loop, and `pong` the mask of a pong.
unfoldable pub on_frame : Bytes → Action WsError Bytes → ℕ × Bytes → Action WsError Bytes
unfolding frame_bytes
on_frame pong next frame =
    if leb frame.0 2
    then pure frame.1
    else if frame.0 == 8
    then throw protocol
    else if frame.0 == 9
    then write_all (frame_bytes (some pong) 10 frame.1) >> next
    else if frame.0 == 10
    then next
    else throw protocol

-- The loop; `rng` is the mask of the pong in a round. Each frame takes a round of fuel; without
-- fuel it fails.
unfoldable pub read_data_frame : ℕ → (ℕ → Bytes) → Action WsError Bytes
unfolding read_frame on_frame
read_data_frame zero rng = throw io
read_data_frame (suc fuel) rng = read_frame >>= on_frame (rng fuel) (read_data_frame fuel rng)
