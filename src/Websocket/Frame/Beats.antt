-- ===== src/Websocket/Frame/Beats.antt =====
-- A data frame is read behind any pings and pongs.
use easy_connection.Prelude.{
  ℕ, suc, ◌≡◌, ◌≤◌, ◌∙◌, sym, ap, refl, arith, Bool, true, false, Option, some, List, [], ◌∷◌, ◌++◌,
  append-nil, append_assoc, leb, length, Bytes, All, ok,
}
use easy_connection.Prelude.Io.{Conn, Action}
use easy_connection.Prelude.Io.Steps.{bind_to}
use easy_connection.Websocket.Frame.{WsError, frame_bytes, read_frame, on_frame, read_data_frame}
use easy_connection.Websocket.Frame.RoundTrip.{conn, IsFrame, read_frame-frame_bytes}

-- A ping or a pong.
pub record Beat : Type 0 where
  pub ping : Bool
  pub mask : Option Bytes
  pub payload : Bytes

abbrev pub opcode_of : Bool → ℕ
opcode_of true = 9
opcode_of false = 10

abbrev pub IsBeat : Beat → Type 0
IsBeat b = IsFrame b.mask (opcode_of b.ping) b.payload

abbrev pub beat_bytes : List Beat → Bytes
beat_bytes [] = []
beat_bytes (b ∷ bs) = frame_bytes b.mask (opcode_of b.ping) b.payload ++ beat_bytes bs

-- The answer to a beat: each ping has a pong with the same payload.
abbrev pub answer : Bool → Bytes → Bytes → Bytes
answer true mask payload = frame_bytes (some mask) 10 payload
answer false mask payload = []

abbrev pub answers : (ℕ → Bytes) → List Beat → Bytes
answers rng [] = []
answers rng (b ∷ bs) = answer b.ping (rng (suc (length bs))) b.payload ++ answers rng bs

on_beat :
    (ping : Bool) (pong payload input out : Bytes) (next : Action WsError Bytes)
    → on_frame pong next (opcode_of ping, payload) (conn input out)
      ≡ next (conn input (out ++ answer ping pong payload))
unfolding on_frame
on_beat true pong payload input out next = refl
on_beat false pong payload input out next = ap (λ s. next (conn input s)) (sym (append-nil out))

on_data :
    (opcode : ℕ) (pong payload : Bytes) (next : Action WsError Bytes) (c : Conn)
    → opcode ≤ 2
    → on_frame pong next (opcode, payload) c ≡ (ok payload, c)
unfolding on_frame
on_data opcode pong payload next c h = let e : leb opcode 2 ≡ true = ground arith in rw e refl

-- A data frame of at most 10 ^ 6 bytes, masked or not, is read whole behind any pings and pongs;
-- each ping is answered by a pong with its payload, in order, nothing else is written, and what
-- follows the frame stays in the stream. One round more than there are pings and pongs is enough.
pub read_data_frame-frame_bytes :
    (rng : ℕ → Bytes) (beats : List Beat) (mask : Option Bytes) (opcode : ℕ)
    (payload rest out : Bytes)
    → All IsBeat beats
    → IsFrame mask opcode payload
    → opcode ≤ 2
    → read_data_frame
        (suc (length beats))
        rng
        (conn (beat_bytes beats ++ (frame_bytes mask opcode payload ++ rest)) out)
      ≡ (ok payload, conn rest (out ++ answers rng beats))
unfolding read_data_frame
read_data_frame-frame_bytes rng [] mask opcode payload rest out bs f h =
    bind_to read_frame (on_frame (rng 0) (read_data_frame 0 rng))
      (conn (frame_bytes mask opcode payload ++ rest) out) (opcode, payload) (conn rest out)
      (read_frame-frame_bytes mask opcode payload rest out f)
    ∙ on_data opcode (rng 0) payload (read_data_frame 0 rng) (conn rest out) h
    ∙ ap (λ s. (ok payload, conn rest s)) (sym (append-nil out))
read_data_frame-frame_bytes rng (b ∷ beats) mask opcode payload rest out (b_ok, bs) f h =
    let later = beat_bytes beats ++ (frame_bytes mask opcode payload ++ rest) in
    let here = frame_bytes b.mask (opcode_of b.ping) b.payload in
    let fuel = suc (length beats) in
    let pong = answer b.ping (rng fuel) b.payload in
    ap (λ s. read_data_frame (suc fuel) rng (conn s out))
      (append_assoc here (beat_bytes beats) (frame_bytes mask opcode payload ++ rest))
    ∙ bind_to read_frame (on_frame (rng fuel) (read_data_frame fuel rng)) (conn (here ++ later) out)
        (opcode_of b.ping, b.payload) (conn later out)
        (read_frame-frame_bytes b.mask (opcode_of b.ping) b.payload later out b_ok)
    ∙ on_beat b.ping (rng fuel) b.payload later out (read_data_frame fuel rng)
    ∙ read_data_frame-frame_bytes rng beats mask opcode payload rest (out ++ pong) bs f h
    ∙ ap (λ s. (ok payload, conn rest s)) (append_assoc out pong (answers rng beats))
