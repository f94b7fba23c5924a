-- ===== src/Udpgw/Proto.antt =====
-- crates/udpgw/src/proto.rs: packets, their bodies and their length-prefixed frames.
-- An error message is a constructor of `PacketError`.
pub mod RoundTrip
pub mod Wire
use Prim.Native.Nat.{bit_and, bit_or}
use easy_connection.Prelude.{
  ℕ, ◌-◌, Bool, true, false, not, Option, none, some, List, [], ◌∷◌, ◌++◌, ltb, ◌==◌, if◌then◌else◌,
  length, take, drop, Bytes, u16_to_be, u16_to_le, u16_from, Result, ok, err, ◌>>=◌,
}
use easy_connection.Prelude.Net.{IpAddr, v4, v6, SocketAddr, socket_addr, is_ipv6}

abbrev pub flag_keepalive : ℕ
flag_keepalive = 1

abbrev pub flag_rebind : ℕ
flag_rebind = 2

abbrev pub flag_dns : ℕ
flag_dns = 4

abbrev pub flag_ipv6 : ℕ
flag_ipv6 = 8

pub data PacketError : Type 0 where
  payload_too_large : PacketError
  missing_destination : PacketError
  ipv6_without_flag : PacketError
  header_truncated : PacketError
  ipv6_truncated : PacketError
  ipv4_truncated : PacketError
  invalid_frame_length : ℕ → PacketError

pub data UdpgwError : Type 0 where
  io : UdpgwError
  packet : PacketError → UdpgwError
  closed : UdpgwError
  timeout : UdpgwError

pub record UdpgwPacket : Type 0 where
  pub flags : ℕ  -- u8
  pub conid : ℕ  -- u16
  pub dest : Option SocketAddr
  pub payload : Bytes

-- `flags & FLAG != 0`.
abbrev pub has_flag : ℕ → ℕ → Bool
has_flag flags flag = not (bit_and flags flag == 0)

unfoldable pub keepalive : ℕ → UdpgwPacket
keepalive conid = record { flags = flag_keepalive; conid = conid; dest = none; payload = [] }

-- `flags |= flag` under a test.
abbrev pub add_flag : Bool → ℕ → ℕ → ℕ
add_flag b flag flags = if b then bit_or flags flag else flags

unfoldable pub data_flags : Bool → Bool → Bool → ℕ
data_flags ipv6 dns rebind =
    add_flag rebind flag_rebind (add_flag dns flag_dns (add_flag ipv6 flag_ipv6 0))

unfoldable pub data_packet : ℕ → SocketAddr → Bytes → Bool → Bool → UdpgwPacket
data_packet conid dest payload dns rebind = record {
  flags = data_flags (is_ipv6 dest.ip) dns rebind;
  conid = conid;
  dest = some dest;
  payload = payload;
}

-- The match on `dest.ip()`: octets and port behind the header.
encode_addr : ℕ → IpAddr → ℕ → Result Bytes UdpgwError
encode_addr flags (v4 octets) port = ok (octets ++ u16_to_be port)
encode_addr flags (v6 octets) port =
    if has_flag flags flag_ipv6
    then ok (octets ++ u16_to_be port)
    else err (packet ipv6_without_flag)

-- `ok_or_else` on the destination, and what follows it.
encode_dest : UdpgwPacket → Bytes → Option SocketAddr → Result Bytes UdpgwError
encode_dest pkt header none = err (packet missing_destination)
encode_dest pkt header (some dest) = do
  addr ← encode_addr pkt.flags dest.ip dest.port
  ok (header ++ (addr ++ pkt.payload))

unfoldable pub encode_body : UdpgwPacket → Result Bytes UdpgwError
unfolding encode_dest encode_addr
encode_body pkt =
    let header = pkt.flags ∷ u16_to_le pkt.conid in
    if has_flag pkt.flags flag_keepalive then ok header else encode_dest pkt header pkt.dest

unfoldable pub encode_frame : UdpgwPacket → Result Bytes UdpgwError
encode_frame pkt = do
  body ← encode_body pkt
  if ltb 65535 (length body)
      then err (packet payload_too_large)
      else ok (u16_to_le (length body) ++ body)

-- A port of two bytes, big-endian, at the head of a slice.
abbrev port_at : Bytes → ℕ
port_at (hi ∷ lo ∷ _) = u16_from hi lo
port_at _ = 0

-- The address and payload, behind the three bytes of the header.
decode_rest : ℕ → ℕ → Bytes → Result UdpgwPacket UdpgwError
decode_rest flags conid rest =
    if has_flag flags flag_ipv6
    then if ltb (length rest) 18
      then err (packet ipv6_truncated)
      else ok (record {
        flags = flags;
        conid = conid;
        dest = some (socket_addr (v6 (take 16 rest)) (port_at (drop 16 rest)));
        payload = drop 18 rest;
      })
    else if ltb (length rest) 6
    then err (packet ipv4_truncated)
    else ok (record {
      flags = flags;
      conid = conid;
      dest = some (socket_addr (v4 (take 4 rest)) (port_at (drop 4 rest)));
      payload = drop 6 rest;
    })

unfoldable pub decode_body : Bytes → Result UdpgwPacket UdpgwError
unfolding decode_rest
decode_body (flags ∷ lo ∷ hi ∷ rest) =
    if has_flag flags flag_keepalive
    then ok (record { flags = flags; conid = u16_from hi lo; dest = none; payload = [] })
    else decode_rest flags (u16_from hi lo) rest
decode_body _ = err (packet header_truncated)
