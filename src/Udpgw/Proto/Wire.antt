-- ===== src/Udpgw/Proto/Wire.antt =====
-- What the constructors of packets put on the wire, and which bytes are accepted from it.
use easy_connection.Prelude.{
  ℕ, zero, suc, ◌+◌, ◌<◌, ◌≤◌, ◌≡◌, refl, ap, Bool, true, false, [], ◌∷◌, ◌++◌, arith, length,
  Bytes, take, drop, IsBytes, u16_to_be, u16_to_le, u16_from, ok, Bool-cases, inl, inr,
  length-append, if◌then◌else◌, is_ok, Result-cases, get_or, ◌↔◌,
}
use native.Mathlib.Nat.{suc-add}
use easy_connection.Prelude.Net.{IpAddr, v4, v6, SocketAddr, octets, is_ipv6, IsPlain}
use easy_connection.Udpgw.Proto.{
  UdpgwPacket, has_flag, flag_keepalive, flag_ipv6, flag_dns, flag_rebind, encode_body, decode_body,
  decode_rest, data_packet, data_flags, port_at, encode_frame,
}
use easy_connection.Udpgw.Proto.RoundTrip.{IsWireable, decode_body-encode_body}

-- The flag byte of `data` says the family of the destination and the two options, and is no
-- keepalive.
pub data_flags_lem :
    (six dns rebind : Bool)
    → (has_flag (data_flags six dns rebind) flag_ipv6 ≡ six)
      × (has_flag (data_flags six dns rebind) flag_dns ≡ dns)
      × (has_flag (data_flags six dns rebind) flag_rebind ≡ rebind)
      × (has_flag (data_flags six dns rebind) flag_keepalive ≡ false)
unfolding data_flags
data_flags_lem true true true = (refl, refl, refl, refl)
data_flags_lem true true false = (refl, refl, refl, refl)
data_flags_lem true false true = (refl, refl, refl, refl)
data_flags_lem true false false = (refl, refl, refl, refl)
data_flags_lem false true true = (refl, refl, refl, refl)
data_flags_lem false true false = (refl, refl, refl, refl)
data_flags_lem false false true = (refl, refl, refl, refl)
data_flags_lem false false false = (refl, refl, refl, refl)

module _ (conid : ℕ) (dest : SocketAddr) (payload : Bytes) (dns rebind : Bool) where
  data_packet-IsWireable :
      conid < 65536 → IsPlain dest → IsWireable (data_packet conid dest payload dns rebind)
  unfolding data_packet
  data_packet-IsWireable c w = record {
    conid_u16 = c;
    keepalive_bare = λ k. ground (arith, data_flags_lem (is_ipv6 dest.ip) dns rebind);
    dest_plain = λ s e. ground arith;
    family_flag = λ s e. ground (arith, data_flags_lem (is_ipv6 dest.ip) dns rebind);
  }

  abbrev data_body : Bytes
  data_body =
      data_flags (is_ipv6 dest.ip) dns rebind
      ∷ (u16_to_le conid ++ ((octets dest.ip ++ u16_to_be dest.port) ++ payload))

  encode_body-data_packet : encode_body (data_packet conid dest payload dns rebind) ≡ ok data_body
  encode_body-data_packet = by_family dest.ip refl
    where
      by_family :
          (ip : IpAddr)
          → dest.ip ≡ ip
          → encode_body (data_packet conid dest payload dns rebind) ≡ ok data_body
      by_family (v4 o) e =
          unfold encode_body data_packet in
          ground (arith, data_flags_lem (is_ipv6 dest.ip) dns rebind)
      by_family (v6 o) e =
          unfold encode_body data_packet in
          ground (arith, data_flags_lem (is_ipv6 dest.ip) dns rebind)

  -- A data packet for a plain address is always encoded, in 5 bytes beside the octets of the
  -- address and the payload, and its body is read back as the same packet.
  pub data_packet-round_trip :
      conid < 65536
      → IsPlain dest
      → (body : Bytes) × (encode_body (data_packet conid dest payload dns rebind) ≡ ok body)
        × (length body ≡ 5 + length (octets dest.ip) + length payload)
        × (decode_body body ≡ ok (data_packet conid dest payload dns rebind))
  data_packet-round_trip c w = (
    data_body,
    encode_body-data_packet,
    omega (
      arith,
      length-append (octets dest.ip ++ u16_to_be dest.port) payload,
      length-append (octets dest.ip) (u16_to_be dest.port),
    ),
    decode_body-encode_body _ (data_packet-IsWireable c w) encode_body-data_packet,
  )

u16_to_le-from : (lo hi : ℕ) → lo < 256 → hi < 256 → u16_to_le (u16_from hi lo) ≡ lo ∷ hi ∷ []
u16_to_le-from lo hi a b = ground arith

u16_to_be-from : (hi lo : ℕ) → hi < 256 → lo < 256 → u16_to_be (u16_from hi lo) ≡ hi ∷ lo ∷ []
u16_to_be-from hi lo a b = ground arith

-- The address part of a rest that is long enough, put together again.
addr_rejoin :
    (n : ℕ) (rest : Bytes)
    → IsBytes rest
    → n + 2 ≤ length rest
    → (take n rest ++ u16_to_be (port_at (drop n rest))) ++ drop (n + 2) rest ≡ rest
addr_rejoin zero [] w h = absurd (omega arith)
addr_rejoin zero (a ∷ []) w h = absurd (omega arith)
addr_rejoin zero (a ∷ b ∷ rest) (x, (y, w)) h = ground (arith, u16_to_be-from a b x y)
addr_rejoin (suc n) [] w h = absurd (omega arith)
addr_rejoin (suc n) (a ∷ rest) (x, w) h =
    rw suc-add (ap (◌∷◌ a) (addr_rejoin n rest w (omega arith)))

encode_rejoin :
    (flags lo hi : ℕ) (rest : Bytes) {p : UdpgwPacket}
    → lo < 256
    → hi < 256
    → IsBytes rest
    → has_flag flags flag_keepalive ≡ false
    → decode_rest flags (u16_from hi lo) rest ≡ ok p
    → encode_body p ≡ ok (flags ∷ lo ∷ hi ∷ rest)
unfolding decode_rest encode_body
encode_rejoin flags lo hi rest a b w k e =
    ground (arith, u16_to_le-from lo hi a b, addr_rejoin 16 rest w, addr_rejoin 4 rest w)

-- Whatever data packet a body of bytes is read as, encoding it gives that body again. (Of a
-- keepalive the bytes behind the header are ignored.)
pub encode_body-decode_body :
    (body : Bytes) {p : UdpgwPacket}
    → IsBytes body
    → decode_body body ≡ ok p
    → has_flag p.flags flag_keepalive ≡ false
    → encode_body p ≡ ok body
unfolding decode_body
encode_body-decode_body (flags ∷ lo ∷ hi ∷ rest) (x, (y, (z, w))) e k =
    elim (Bool-cases (has_flag flags flag_keepalive)) [
      | inl k' ↦ ground arith
      | inr k' ↦ encode_rejoin flags lo hi rest y z w k' (ground arith)
    ]
encode_body-decode_body _ w e k = cc

-- The shortest body with these flags.
abbrev pub least_body : ℕ → ℕ
least_body flags =
    if has_flag flags flag_keepalive then 3 else if has_flag flags flag_ipv6 then 21 else 9

-- A body is refused exactly when it is shorter than its flags need: 3 bytes for a keepalive,
-- 9 with an IPv4 and 21 with an IPv6 destination.
pub decode_body_total :
    (body : Bytes)
    → (is_ok (decode_body body) ≡ true)
      ↔ ((3 ≤ length body) × (least_body (get_or body 0 0) ≤ length body))
unfolding decode_body
decode_body_total (flags ∷ lo ∷ hi ∷ rest) = ground arith
decode_body_total _ = ground arith

-- A frame is refused exactly when its body is, or when the body has more than 65535 bytes.
pub encode_frame_total :
    (p : UdpgwPacket)
    → (is_ok (encode_frame p) ≡ true)
      ↔ ((body : Bytes) × (encode_body p ≡ ok body) × (length body ≤ 65535))
unfolding encode_frame
encode_frame_total p = elim (Result-cases (encode_body p)) [
  | inl (body, b) ↦ (λ h. (body, b, ground arith), λ (body', b', l). ground arith)
  | inr (e, b) ↦ (λ h. ground arith, λ (body', b', l). ground arith)
]
