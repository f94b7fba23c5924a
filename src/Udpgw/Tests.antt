-- ===== src/Udpgw/Tests.antt =====
-- The theorems about UDPGW at concrete packets and tables, and runs of the definitions.
use easy_connection.Prelude.{◌≡◌, refl, true, some, [], ◌∷◌, ◌++◌, arith, Bytes, ok, is_ok}
use easy_connection.Prelude.Assoc.{get, insert}
use easy_connection.Prelude.Net.{v4, SocketAddr, socket_addr, IsPlain}
use easy_connection.Udpgw.Proto.{
  UdpgwPacket, keepalive, data_packet, data_flags, encode_body, encode_frame, decode_body,
}
use easy_connection.Udpgw.Proto.RoundTrip.{IsWireable, decode_body-encode_body}
use easy_connection.Udpgw.Client.{
  Inner, World, Key, Reach, here, next, datagram, start, new_inner, conid_of, send_udp, start_query,
  handle_body, write_packet, get_key, get_flow, udp, go_on,
}
use easy_connection.Udpgw.Client.Replies.{reply_reaches_source, reused_conid_misroutes}

abbrev google : SocketAddr
google = socket_addr (v4 (8 ∷ 8 ∷ 8 ∷ 8 ∷ [])) 53

abbrev here_addr : SocketAddr
here_addr = socket_addr (v4 (10 ∷ 0 ∷ 0 ∷ 1 ∷ [])) 4000

google-IsPlain : IsPlain google
google-IsPlain = record {
  ip_octets = (refl, omega arith);
  port_u16 = omega arith;
  no_flow = refl;
  no_scope = refl;
}

-- The body of the test `issue121_style_header`.
abbrev issue121 : Bytes
issue121 = 0 ∷ 1 ∷ 0 ∷ 8 ∷ 8 ∷ 8 ∷ 8 ∷ 0 ∷ 53 ∷ b'd' ∷ b'n' ∷ b's' ∷ []

abbrev issue121_packet : UdpgwPacket
issue121_packet = record {
  flags = 0;
  conid = 1;
  dest = some google;
  payload = b'd' ∷ b'n' ∷ b's' ∷ [];
}

decode_issue121 : decode_body issue121 ≡ ok issue121_packet
unfolding decode_body
decode_issue121 = refl

keepalive_body : encode_body (keepalive 0) ≡ ok (1 ∷ 0 ∷ 0 ∷ [])
unfolding encode_body keepalive
keepalive_body = refl

issue121-IsWireable : IsWireable issue121_packet
issue121-IsWireable = record {
  conid_u16 = omega arith;
  keepalive_bare = λ k. cc;
  dest_plain = λ s e. ground (arith, google-IsPlain);
  family_flag = λ s e. ground arith;
}

encode_issue121 : encode_body issue121_packet ≡ ok issue121
unfolding encode_body
encode_issue121 = refl

decode_body-encode_body_example : decode_body issue121 ≡ ok issue121_packet
decode_body-encode_body_example =
    decode_body-encode_body issue121_packet issue121-IsWireable encode_issue121

issue121_accepted : is_ok (decode_body issue121) ≡ true
unfolding decode_body
issue121_accepted = refl

issue121_frame : encode_frame issue121_packet ≡ ok (12 ∷ 0 ∷ issue121)
unfolding encode_frame encode_body
issue121_frame = refl

abbrev flow_key : Key
flow_key = (here_addr, google)

-- One datagram sent from the fresh table.
abbrev after_one : World
after_one = record start { inner = (send_udp true here_addr google [] true start.inner).1 }

after_one-Reach : Reach after_one
after_one-Reach =
    next here (datagram true here_addr google [] true start (unfold new_inner in omega arith))

after_one_key : get_key flow_key after_one.inner ≡ some 1
unfolding send_udp conid_of write_packet encode_frame new_inner get insert
after_one_key = ground arith

reply_reaches_source_example :
    let (r, t) = handle_body true issue121 after_one.inner in
    (r ≡ ok go_on)
    × (t.replies ≡ after_one.inner.replies ++ ((here_addr, issue121_packet.payload) ∷ []))
    × (t.answers ≡ after_one.inner.answers)
    × (get_flow 1 t ≡ some (udp here_addr))
reply_reaches_source_example =
    reply_reaches_source after_one flow_key issue121 issue121_packet after_one-Reach after_one_key
      decode_issue121 refl

-- The counter has come round to the conid of a live key.
abbrev wrapped : Inner
wrapped = record {
  next_conid = 1;
  flows = (1, udp here_addr) ∷ [];
  keys = (flow_key, 1) ∷ [];
  written = [];
  answers = [];
  replies = [];
}

wrapped_query : (start_query true google [] 9 wrapped).0 ≡ ok 1
unfolding start_query write_packet encode_frame encode_body data_packet data_flags
wrapped_query = refl

wrapped_key : get_key flow_key wrapped ≡ some 1
unfolding get
wrapped_key = ground arith

reused_conid_misroutes_example :
    let t = (start_query true google [] 9 wrapped).1 in
    let u = (handle_body true issue121 t).1 in
    (get_key flow_key t ≡ some 1)
    × (u.answers ≡ t.answers ++ ((9, issue121_packet.payload) ∷ []))
    × (u.replies ≡ t.replies)
reused_conid_misroutes_example =
    reused_conid_misroutes wrapped flow_key google [] issue121 9 1 issue121_packet wrapped_key
      wrapped_query decode_issue121 refl refl
