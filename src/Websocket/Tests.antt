-- ===== src/Websocket/Tests.antt =====
-- The theorems about WebSockets at concrete inputs.
use easy_connection.Prelude.{
  ℕ, ◌≡◌, ◌++◌, refl, arith, none, some, List, [], ◌∷◌, Bytes, true, false, ok,
}
use easy_connection.Prelude.Text.{Str, codes}
use easy_connection.Websocket.Frame.{frame_bytes, read_data_frame}
use easy_connection.Websocket.Frame.RoundTrip.{conn, IsFrame}
use easy_connection.Websocket.Frame.Beats.{Beat, beat_bytes, answers, read_data_frame-frame_bytes}

abbrev rng : ℕ → Bytes
rng n = 9 ∷ 8 ∷ 7 ∷ 6 ∷ []

abbrev beats : List Beat
beats =
    record { ping = true; mask = none; payload = 5 ∷ [] }
    ∷ record { ping = false; mask = some (1 ∷ 2 ∷ 3 ∷ 4 ∷ []); payload = [] }
    ∷ []

plain-IsFrame : IsFrame none 2 (7 ∷ 8 ∷ [])
plain-IsFrame = record {
  opcode_u4 = omega arith;
  mask_bytes = tt;
  payload_bytes = (omega arith, (omega arith, tt));
  payload_fits = omega arith;
}

ping-IsFrame : IsFrame none 9 (5 ∷ [])
ping-IsFrame = record {
  opcode_u4 = omega arith;
  mask_bytes = tt;
  payload_bytes = (omega arith, tt);
  payload_fits = omega arith;
}

pong-IsFrame : IsFrame (some (1 ∷ 2 ∷ 3 ∷ 4 ∷ [])) 10 []
pong-IsFrame = record {
  opcode_u4 = omega arith;
  mask_bytes = (refl, (omega arith, (omega arith, (omega arith, (omega arith, tt)))));
  payload_bytes = tt;
  payload_fits = omega arith;
}

read_data_frame-frame_bytes_example :
    read_data_frame 3 rng
      (conn (beat_bytes beats ++ (frame_bytes none 2 (7 ∷ 8 ∷ []) ++ (1 ∷ []))) [])
    ≡ (ok (7 ∷ 8 ∷ []), conn (1 ∷ []) (answers rng beats))
read_data_frame-frame_bytes_example =
    read_data_frame-frame_bytes rng beats none 2 (7 ∷ 8 ∷ []) (1 ∷ []) []
      (ping-IsFrame, (pong-IsFrame, tt)) plain-IsFrame (omega arith)

abbrev no_digest : Bytes → Bytes
no_digest b = []

abbrev ascii : Bytes → Str
ascii b = b

abbrev response : Bytes
response =
    codes
      "HTTP/1.1 101 S\r\nUpgrade: websocket\r\nConnection: keep-alive, Upgrade\r\nSec-WebSocket-Accept:\r\n\r\n"
    ++ (130 ∷ [])
