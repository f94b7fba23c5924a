-- ===== src/Udpgw/Client/Frames.antt =====
-- The frames that one side writes are the bodies that the other side's loop reads.
use easy_connection.Prelude.{
  ◌<◌, ◌≡◌, ◌≤◌, arith, [], ◌∷◌, ◌++◌, length, Bytes, u16_to_le, ok, append_assoc, take-append,
  drop-append, length-append, steps_of,
}
use easy_connection.Udpgw.Proto.{UdpgwPacket, encode_body, encode_frame, decode_body}
use easy_connection.Udpgw.Proto.RoundTrip.{IsWireable, decode_body-encode_body}
use easy_connection.Udpgw.Client.{read_frame}

read_frame-append :
    (body rest : Bytes)
    → 0 < length body
    → length body ≤ 65535
    → read_frame (u16_to_le (length body) ++ (body ++ rest)) ≡ ok (body, rest)
unfolding read_frame
read_frame-append body rest p q =
    ground (arith, take-append body rest, drop-append body rest, length-append body rest)

decoded_pos : (body : Bytes) {p : UdpgwPacket} → decode_body body ≡ ok p → 0 < length body
unfolding decode_body
decoded_pos [] e = cc
decoded_pos (x ∷ body) e = omega arith

-- What `write_packet` puts on the stream, the reader takes off it: the body of the packet, with
-- everything behind the frame left in the stream; and a packet that the format can carry is
-- decoded from that body.
pub read_frame-encode_frame :
    (p : UdpgwPacket) (rest : Bytes) {frame : Bytes}
    → IsWireable p
    → encode_frame p ≡ ok frame
    → (body : Bytes) × (read_frame (frame ++ rest) ≡ ok (body, rest)) × (decode_body body ≡ ok p)
unfolding encode_frame
read_frame-encode_frame p rest {frame} w e =
    let (body, b, f) = steps_of (encode_body p) _ e in
    let d = decode_body-encode_body p w b in
    (
      body,
      ground (
        arith,
        read_frame-append body rest,
        decoded_pos body d,
        append_assoc (u16_to_le (length body)) body rest,
      ),
      d,
    )
