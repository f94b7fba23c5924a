-- ===== src/Shadowsocks/Addr/Target.antt =====
-- The destination is read back as a SOCKS address.
use easy_connection.Prelude.{
  ℕ, sym, append-nil, take-append, if◌then◌else◌, ◌≡◌, ◌<◌, ◌≤◌, ◌∙◌, refl, arith, ap, Option, none,
  some, Bool, true, [], ◌∷◌, ◌++◌, append_assoc, Bytes, length, take, min, u16_to_be, Result, ok,
}
use easy_connection.Prelude.Net.{IpAddr, v4, v6, IsIp}
use easy_connection.Prelude.Io.{Target, Conn, fresh, Action, ◌>>=◌, pure, throw, read_exact}
use easy_connection.Prelude.Io.Steps.{read_then}
use easy_connection.Socks.Socks5.{
  SocksError, protocol, io, at, port_of, dotted, read_address, read_v4, read_v6, read_domain,
}
use easy_connection.Socks.Socks5.Accept.{string_then, u16_back}
use easy_connection.Shadowsocks.Addr.{encode_name, encode_host, encode_socks_addr}

-- An address type, and the address behind it.
unfoldable pub read_target :
    (Target → Result (Unit {0}) SocksError)
    → (Bytes → Bytes)
    → (Bytes → Bool)
    → Action SocksError Target
read_target connect show_v6 is_utf8 =
    read_exact io 1 >>= λ atyp. read_address connect show_v6 is_utf8 (at atyp 0)

-- The text of the host that is read.
abbrev pub host_text : (Bytes → Bytes) → Bytes → Option IpAddr → Bytes
host_text show_v6 host none = host
host_text show_v6 host (some (v4 o)) = dotted o
host_text show_v6 host (some (v6 o)) = show_v6 o

abbrev pub IsHost : (Bytes → Bool) → Bytes → Option IpAddr → Type 0
IsHost is_utf8 host none = (length host ≤ 255) × (is_utf8 host ≡ true)
IsHost is_utf8 host (some ip) = IsIp ip

abbrev conn : Bytes → Conn
conn input = record { incoming = input; outgoing = []; dialed = [] }

abbrev pub found : Bytes → ℕ → Target
found host port = record { host = host; port = port }

-- A port, and what is made of it.
port_read :
    (f : ℕ → Target) (port : ℕ) (rest : Bytes)
    → port < 65536
    → (read_exact io 2 >>= λ p. pure (f (port_of p))) (conn (u16_to_be port ++ rest))
      ≡ (ok (f port), conn rest)
port_read f port rest p =
    read_then io 2 (λ b. pure (f (port_of b))) (u16_to_be port) rest [] [] refl
    ∙ ap (λ n. (ok (f n), conn rest)) (u16_back port p)

whole_name : (host : Bytes) → length host ≤ 255 → encode_name host ≡ 0x03 ∷ length host ∷ host
whole_name host l =
    let n : min (length host) 255 ≡ length host = omega arith in
    rw n (
      ap (λ s. 0x03 ∷ length host ∷ s)
        (ap (take (length host)) (sym (append-nil host)) ∙ take-append host []))

module _ (connect : Target → Result (Unit {0}) SocksError) (show_v6 : Bytes → Bytes)
    (is_utf8 : Bytes → Bool) where
  abbrev typed : Bytes → Action SocksError Target
  typed atyp = read_address connect show_v6 is_utf8 (at atyp 0)

  read_target-type :
      (atyp : ℕ) (b port rest : Bytes)
      → read_target connect show_v6 is_utf8 (conn (((atyp ∷ b) ++ port) ++ rest))
        ≡ read_address connect show_v6 is_utf8 atyp (conn (b ++ (port ++ rest)))
  unfolding read_target
  read_target-type atyp b port rest =
      ap (λ s. read_target connect show_v6 is_utf8 (conn (atyp ∷ s))) (append_assoc b port rest)
      ∙ read_then io 1 typed (atyp ∷ []) (b ++ (port ++ rest)) [] [] refl

  read_target-host :
      (ip : Option IpAddr) (host : Bytes) (port : ℕ) (rest : Bytes)
      → IsHost is_utf8 host ip
      → port < 65536
      → read_target connect show_v6 is_utf8 (conn ((encode_host host ip ++ u16_to_be port) ++ rest))
        ≡ (ok (found (host_text show_v6 host ip) port), conn rest)
  unfolding read_address read_v4 read_v6 read_domain
  read_target-host (some (v4 o)) host port rest (l, b) p =
      read_target-type 0x01 o (u16_to_be port) rest
      ∙ read_then io 4 (λ a. read_exact io 2 >>= λ q. pure (found (dotted a) (port_of q))) o
          (u16_to_be port ++ rest) [] [] l
      ∙ port_read (found (dotted o)) port rest p
  read_target-host (some (v6 o)) host port rest (l, b) p =
      read_target-type 0x04 o (u16_to_be port) rest
      ∙ read_then io 16 (λ a. read_exact io 2 >>= λ q. pure (found (show_v6 a) (port_of q))) o
          (u16_to_be port ++ rest) [] [] l
      ∙ port_read (found (show_v6 o)) port rest p
  read_target-host none host port rest (l, u) p =
      ap (λ s. read_target connect show_v6 is_utf8 (conn ((s ++ u16_to_be port) ++ rest)))
        (whole_name host l)
      ∙ read_target-type 0x03 (length host ∷ host) (u16_to_be port) rest
      ∙ string_then (λ d. read_exact io 2 >>= λ q. checked d q) host (u16_to_be port ++ rest) [] []
      ∙ read_then io 2 (checked host) (u16_to_be port) rest [] [] refl
      ∙ rw u (ap (λ n. (ok (found host n), conn rest)) (u16_back port p))
    where
      checked : Bytes → Bytes → Action SocksError Target
      checked d q = if is_utf8 d then pure (found d (port_of q)) else throw protocol

  -- A host that is UTF-8 of at most 255 bytes, or an address, is read back by the SOCKS5 reader as
  -- that host, or the text of that address, with its port; and what follows it stays in the
  -- stream.
  pub read_target-encode_socks_addr :
      (parse : Bytes → Option IpAddr) (host : Bytes) (port : ℕ) (rest : Bytes)
      → IsHost is_utf8 host (parse host)
      → port < 65536
      → read_target connect show_v6 is_utf8 (fresh (encode_socks_addr parse host port ++ rest))
        ≡ (ok (found (host_text show_v6 host (parse host)) port), fresh rest)
  unfolding encode_socks_addr
  read_target-encode_socks_addr parse host port rest h p =
      read_target-host (parse host) host port rest h p
