-- ===== src/Udpgw/Client/Replies.antt =====
-- Where the payload of an arriving packet goes.
use native.Mathlib.Decide.{ℕ_discrete}
use easy_connection.Prelude.{
  ℕ, ◌≡◌, ◌∙◌, arith, Bool, true, false, none, some, [], ◌∷◌, ◌++◌, Bytes, ok, Result-cases, inl,
  inr,
}
use easy_connection.Prelude.Assoc.{remove, get-insert, get-remove}
use easy_connection.Prelude.Net.{SocketAddr}
use easy_connection.Udpgw.Proto.{
  UdpgwPacket, has_flag, flag_keepalive, data_packet, encode_frame, decode_body,
}
use easy_connection.Udpgw.Client.{
  udp, dns, Key, Key-discrete, Inner, World, get_flow, get_key, write_packet, conid_of, send_udp,
  start_query, handle_body, Reach, go_on,
}
use easy_connection.Udpgw.Client.Routing.{Reach-Inv, write_packet_table}

-- A UDP flow: the payload goes to the flow's sender, and the flow stays.
handle_body_udp :
    (s : Inner) (b : Bytes) (p : UdpgwPacket) (from : SocketAddr)
    → decode_body b ≡ ok p
    → has_flag p.flags flag_keepalive ≡ false
    → get_flow p.conid s ≡ some (udp from)
    → let (r, t) = handle_body true b s in
      (r ≡ ok go_on)
      × (t.replies ≡ s.replies ++ ((from, p.payload) ∷ []))
      × (t.answers ≡ s.answers)
      × (get_flow p.conid t ≡ some (udp from))
unfolding handle_body
handle_body_udp s b p from d k f =
    ground
      (arith, get-insert ℕ_discrete p.conid p.conid (udp from) (remove ℕ_discrete p.conid s.flows))

-- A DNS flow: the payload goes to the waiting query, and the flow is gone.
handle_body_dns :
    (s : Inner) (b : Bytes) (p : UdpgwPacket) (tx : ℕ) (r : Bool)
    → decode_body b ≡ ok p
    → has_flag p.flags flag_keepalive ≡ false
    → get_flow p.conid s ≡ some (dns tx)
    → let t = (handle_body r b s).1 in
      (t.answers ≡ s.answers ++ ((tx, p.payload) ∷ []))
      × (t.replies ≡ s.replies)
      × (get_flow p.conid t ≡ none)
unfolding handle_body
handle_body_dns s b p tx r d k f = ground (arith, get-remove ℕ_discrete p.conid p.conid s.flows)

-- In every table that the client reaches while conids last: a data packet that arrives on the
-- conid of a key is forwarded to that key's source address and to no DNS query, the reader goes
-- on, and the flow is kept for further datagrams.
pub reply_reaches_source :
    (w : World) (k : Key) (b : Bytes) (p : UdpgwPacket)
    → Reach w
    → get_key k w.inner ≡ some p.conid
    → decode_body b ≡ ok p
    → has_flag p.flags flag_keepalive ≡ false
    → let (r, t) = handle_body true b w.inner in
      (r ≡ ok go_on)
      × (t.replies ≡ w.inner.replies ++ ((k.0, p.payload) ∷ []))
      × (t.answers ≡ w.inner.answers)
      × (get_flow p.conid t ≡ some (udp k.0))
reply_reaches_source w k b p r e d f =
    handle_body_udp w.inner b p k.0 d f ((Reach-Inv r).key_routed k p.conid e)

conid_of_key : (k : Key) (s : Inner) → get_key k (conid_of k s).1 ≡ some (conid_of k s).0
unfolding conid_of
conid_of_key k s = ground (arith, get-insert Key-discrete k k s.next_conid s.keys)

conid_of_written : (k : Key) (s : Inner) → (conid_of k s).1.written ≡ s.written
unfolding conid_of
conid_of_written k s = ground arith

write_packet_frame :
    (p : UdpgwPacket) (s : Inner)
    → let (r, t) = write_packet true p s in
      r ≡ ok tt
      → (frame : Bytes) × (encode_frame p ≡ ok frame) × (t.written ≡ s.written ++ (frame ∷ []))
unfolding write_packet
write_packet_frame p s h = elim (Result-cases (encode_frame p)) [
  | inl (frame, e) ↦ (frame, e, ground arith)
  | inr (x, e) ↦ ground arith
]

-- A datagram that is sent puts one frame on the stream, the encoding of a data packet to the
-- destination under the conid that the table then has for its source and destination.
pub send_udp_frame :
    (from dest : SocketAddr) (payload : Bytes) (is_dns : Bool) (s : Inner)
    → let (r, t) = send_udp true from dest payload is_dns s in
      r ≡ ok tt
      → (id : ℕ) × (frame : Bytes) × (get_key (from, dest) t ≡ some id)
        × (encode_frame (data_packet id dest payload is_dns false) ≡ ok frame)
        × (t.written ≡ s.written ++ (frame ∷ []))
unfolding send_udp
send_udp_frame from dest payload is_dns s h =
    let (id, t) = conid_of (from, dest) s in
    let (frame, e, w) = write_packet_frame (data_packet id dest payload is_dns false) t h in
    let (_, _, k) = write_packet_table true (data_packet id dest payload is_dns false) t in
    (id, frame, rw k (conid_of_key (from, dest) s), e, w ∙ rw (conid_of_written (from, dest) s))

start_query_flow :
    (dest : SocketAddr) (message : Bytes) (tx id : ℕ) (s : Inner)
    → (start_query true dest message tx s).0 ≡ ok id
    → let t = (start_query true dest message tx s).1 in
      (get_flow s.next_conid t ≡ some (dns tx)) × (t.keys ≡ s.keys)
unfolding start_query write_packet
start_query_flow dest message tx id s h =
    elim (Result-cases (encode_frame (data_packet s.next_conid dest message true false))) [
      | inl (frame, e) ↦
          ground (arith, get-insert ℕ_discrete s.next_conid s.next_conid (dns tx) s.flows)
      | inr (x, e) ↦ ground arith
    ]

-- Once the counter has come round to the conid of a live key, a query takes the conid over: the
-- next packet on it, which the peer may have sent for the key, answers the query and is lost to
-- the key's source.
pub reused_conid_misroutes :
    (s : Inner) (k : Key) (dest : SocketAddr) (message b : Bytes) (tx id : ℕ) (p : UdpgwPacket)
    → get_key k s ≡ some s.next_conid
    → (start_query true dest message tx s).0 ≡ ok id
    → decode_body b ≡ ok p
    → p.conid ≡ s.next_conid
    → has_flag p.flags flag_keepalive ≡ false
    → let t = (start_query true dest message tx s).1 in
      let u = (handle_body true b t).1 in
      (get_key k t ≡ some p.conid)
      × (u.answers ≡ t.answers ++ ((tx, p.payload) ∷ []))
      × (u.replies ≡ t.replies)
reused_conid_misroutes s k dest message b tx id p e q d c f =
    let (flow, keys) = start_query_flow dest message tx id s q in
    let t = (start_query true dest message tx s).1 in
    let (answers, replies, _) = handle_body_dns t b p tx true d f (rw c flow) in
    (rw (keys, c) e, answers, replies)
