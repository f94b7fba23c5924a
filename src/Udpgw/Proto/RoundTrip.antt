-- ===== src/Udpgw/Proto/RoundTrip.antt =====
-- Encoding and decoding of packets undo one another.
use easy_connection.Prelude.{
  ℕ, ◌/◌, ◌%◌, ◌<◌, ◌≡◌, true, false, none, some, [], ◌∷◌, ◌++◌, arith, length, Bytes, u16_to_be,
  u16_to_le, u16_from, ok, Bool-cases, inl, inr, length-append, append_assoc, steps_of,
  Option-cases, take_exact, drop_exact, drop_beyond,
}
use easy_connection.Prelude.Net.{IpAddr, v4, v6, SocketAddr, socket_addr, is_ipv6, IsPlain, IsIp}
use easy_connection.Udpgw.Proto.{
  UdpgwPacket, has_flag, flag_keepalive, flag_ipv6, encode_body, encode_addr, encode_dest,
  decode_body, decode_rest,
}

-- The packets whose every field the wire format carries.
pub record IsWireable (p : UdpgwPacket) : Type 0 where
  pub conid_u16 : p.conid < 65536
  pub keepalive_bare : has_flag p.flags flag_keepalive ≡ true → (p.dest ≡ none) × (p.payload ≡ [])
  pub dest_plain : (s : SocketAddr) → p.dest ≡ some s → IsPlain s
  pub family_flag : (s : SocketAddr) → p.dest ≡ some s → has_flag p.flags flag_ipv6 ≡ is_ipv6 s.ip

u16_from-le : (n : ℕ) → n < 65536 → u16_from (n / 256 % 256) (n % 256) ≡ n
u16_from-le n h = omega arith

module _ (flags conid : ℕ) (o : Bytes) (port : ℕ) (payload : Bytes) (p : port < 65536) where
  abbrev after_octets : Bytes
  after_octets = (port / 256 % 256) ∷ (port % 256) ∷ payload

  decode_rest_v4 :
      has_flag flags flag_ipv6 ≡ false
      → length o ≡ 4
      → decode_rest flags conid (o ++ after_octets)
        ≡ ok (record {
          flags = flags;
          conid = conid;
          dest = some (socket_addr (v4 o) port);
          payload = payload;
        })
  unfolding decode_rest
  decode_rest_v4 f n = ground (
    arith,
    u16_from-le port,
    length-append o after_octets,
    take_exact 4 o after_octets,
    drop_exact 4 o after_octets,
    drop_beyond 4 2 o after_octets,
  )

  decode_rest_v6 :
      has_flag flags flag_ipv6 ≡ true
      → length o ≡ 16
      → decode_rest flags conid (o ++ after_octets)
        ≡ ok (record {
          flags = flags;
          conid = conid;
          dest = some (socket_addr (v6 o) port);
          payload = payload;
        })
  unfolding decode_rest
  decode_rest_v6 f n = ground (
    arith,
    u16_from-le port,
    length-append o after_octets,
    take_exact 16 o after_octets,
    drop_exact 16 o after_octets,
    drop_beyond 16 2 o after_octets,
  )

-- Behind the header, an address of either family and any payload are read back.
decode_rest-encode_addr :
    (flags conid : ℕ) (ip : IpAddr) (port : ℕ) (payload : Bytes) {addr : Bytes}
    → IsIp ip
    → port < 65536
    → has_flag flags flag_ipv6 ≡ is_ipv6 ip
    → encode_addr flags ip port ≡ ok addr
    → decode_rest flags conid (addr ++ payload)
      ≡ ok (record {
        flags = flags;
        conid = conid;
        dest = some (socket_addr ip port);
        payload = payload;
      })
unfolding encode_addr
decode_rest-encode_addr flags conid (v4 o) port payload w b f e =
    ground
      (arith, decode_rest_v4 flags conid o port payload b, append_assoc o (u16_to_be port) payload)
decode_rest-encode_addr flags conid (v6 o) port payload w b f e =
    ground
      (arith, decode_rest_v6 flags conid o port payload b, append_assoc o (u16_to_be port) payload)

-- With a destination, once the address is written.
decode_body-dest :
    (p : UdpgwPacket) (s : SocketAddr) {body : Bytes}
    → IsWireable p
    → p.dest ≡ some s
    → has_flag p.flags flag_keepalive ≡ false
    → encode_dest p (p.flags ∷ u16_to_le p.conid) (some s) ≡ ok body
    → decode_body body ≡ ok p
unfolding decode_body encode_dest
decode_body-dest p s {body} w d k e =
    let (addr, a, b) = steps_of (encode_addr p.flags s.ip s.port) _ e in
    ground (
      arith,
      a,
      b,
      u16_from-le p.conid,
      w.dest_plain s d,
      decode_rest-encode_addr p.flags p.conid s.ip s.port p.payload (w.dest_plain s d).ip_octets
          (w.dest_plain s d).port_u16 (w.family_flag s d) a,
    )

-- A packet that the format can carry is read back from its body, whole.
pub decode_body-encode_body :
    (p : UdpgwPacket) {body : Bytes}
    → IsWireable p
    → encode_body p ≡ ok body
    → decode_body body ≡ ok p
decode_body-encode_body p w e = elim (Bool-cases (has_flag p.flags flag_keepalive)) [
  | inl k ↦ unfold encode_body decode_body in ground (arith, u16_from-le p.conid)
  | inr k ↦ elim (Option-cases p.dest) [
    | inl d ↦ unfold encode_body encode_dest in ground arith
    | inr (s, d) ↦ decode_body-dest p s w d k (unfold encode_body in ground arith)
  ]
]
