-- ===== src/Socks/Socks4.antt =====
-- crates/socks/src/socks4.rs, up to the relay, and `dispatch_socks` of server.rs.
pub mod Serve
use easy_connection.Prelude.{
  ℕ, zero, suc, Bool, not, ◌&&◌, List, [], ◌∷◌, ◌++◌, ◌==◌, if◌then◌else◌, Bytes, take, drop,
  replicate, Result, ok, err,
}
use easy_connection.Prelude.Io.{
  Target, Conn, Action, ◌>>=◌, ◌>>◌, pure, throw, read_exact, write_all,
}
use easy_connection.Socks.Socks5.{
  SocksError, io, protocol, command_not_supported, Socks5Auth, at, port_of, dotted, dial,
  handle_socks5,
}

unfoldable pub write_reply4 : ℕ → Action SocksError (Unit {0})
write_reply4 code = write_all (0x00 ∷ code ∷ replicate 6 0)

-- The bytes up to a zero byte, which is read too. The number is how many of them may be pushed.
unfoldable pub read_nul : ℕ → Action SocksError Bytes
read_nul zero = do b ← read_exact io 1; if at b 0 == 0 then pure [] else throw protocol
read_nul (suc n) = do
  b ← read_exact io 1
  if at b 0 == 0 then pure [] else read_nul n >>= λ rest. pure (at b 0 ∷ rest)

-- An address 0.0.0.x with x > 0, behind the two bytes of the port.
abbrev pub is_socks4a : Bytes → Bool
is_socks4a hdr = at hdr 4 == 0 && (at hdr 5 == 0 && (at hdr 6 == 0 && not (at hdr 7 == 0)))

module _ (connect : Target → Result (Unit {0}) SocksError) (show_v6 : Bytes → Bytes)
    (is_utf8 : Bytes → Bool) where
  check_utf8 : Bytes → Action SocksError Bytes
  check_utf8 domain = if is_utf8 domain then pure domain else throw protocol

  unfoldable pub read_host4 : Bytes → Action SocksError Bytes
  unfolding check_utf8
  read_host4 hdr =
      if is_socks4a hdr then read_nul 255 >>= check_utf8 else pure (dotted (drop 4 hdr))

  unfoldable pub answer_dial4 : Result (Unit {0}) SocksError → Action SocksError (Unit {0})
  answer_dial4 (ok _) = write_reply4 0x5a
  answer_dial4 (err e) = write_reply4 0x5b >> throw e

  unfoldable pub open_upstream4 : Target → Action SocksError (Unit {0})
  open_upstream4 target c = let (r, d) = dial connect show_v6 is_utf8 target c in answer_dial4 r d

  -- What follows the header: the user id, the host and the connection.
  unfoldable pub serve4 : Bytes → Action SocksError (Unit {0})
  serve4 hdr = do
    userid ← read_nul 512
    host ← read_host4 hdr
    open_upstream4 (record { host = host; port = port_of (drop 2 hdr) })

  unfoldable pub handle_socks4 : Action SocksError (Unit {0})
  handle_socks4 = do
    hdr ← read_exact io 8
    if not (at hdr 0 == 0x04)
        then throw protocol
        else if not (at hdr 1 == 0x01)
        then write_reply4 0x5b >> throw command_not_supported
        else serve4 hdr

  -- `VersionPrefixed`: the byte that was read is read again.
  unfoldable pub version_prefixed : ℕ → Action SocksError (Unit {0}) → Action SocksError (Unit {0})
  version_prefixed first m c = m (record c { incoming = first ∷ c.incoming })

  unfoldable pub dispatch_socks : Socks5Auth → Action SocksError (Unit {0})
  dispatch_socks auth = do
    ver ← read_exact io 1
    if at ver 0 == 0x05
        then version_prefixed 0x05 (handle_socks5 connect show_v6 is_utf8 auth)
        else if at ver 0 == 0x04
        then version_prefixed 0x04 handle_socks4
        else throw protocol
