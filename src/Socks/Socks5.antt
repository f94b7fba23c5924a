-- ===== src/Socks/Socks5.antt =====
-- crates/socks/src/socks5.rs, up to the relay. The upstream connector, the text of an IPv6 address
-- and the test of `String::from_utf8` are parameters. A host is the bytes of its text.
pub mod Password
pub mod Auth
pub mod Accept
use easy_connection.Prelude.Text.{show_u16}
use easy_connection.Prelude.{
  ℕ, ◌*◌, ◌+◌, Bool, true, false, not, ◌&&◌, Option, none, some, List, [], ◌∷◌, ◌++◌, ◌==◌,
  if◌then◌else◌, Bytes, contains, eq_bytes, get_or, u16_from, Result, ok, err, replicate,
}
use easy_connection.Prelude.Io.{
  Target, Conn, Action, ◌>>=◌, ◌>>◌, pure, throw, read_exact, write_all,
}

-- The reason of a protocol error is left out.
pub data SocksError : Type 0 where
  io protocol auth_required auth_failed : SocksError
  command_not_supported address_not_supported upstream_failed : SocksError

pub record Socks5Auth : Type 0 where
  pub username : Option Bytes
  pub password : Option Bytes

unfoldable pub auth_none : Socks5Auth
auth_none = record { username = none; password = none }

unfoldable pub auth_required_by : Bytes → Bytes → Socks5Auth
auth_required_by user pass = record { username = some user; password = some pass }

abbrev pub is_set : Option Bytes → Bool
is_set none = false
is_set (some _) = true

-- A byte of a buffer that was filled.
abbrev pub at : Bytes → ℕ → ℕ
at b i = get_or b i 0

abbrev pub port_of : Bytes → ℕ
port_of b = u16_from (at b 0) (at b 1)

unfoldable pub select_method : Option Bytes → Bytes → ℕ
select_method username methods =
    if is_set username
    then if contains methods 0x02 then 0x02 else 0xff
    else if contains methods 0x00
    then 0x00
    else 0xff

unfoldable pub credentials_match : Socks5Auth → Bytes → Bytes → Bool
credentials_match auth uname pass = elim auth.username [
  | none ↦ false
  | some u ↦ elim auth.password [ none ↦ false | some p ↦ eq_bytes u uname && eq_bytes p pass ]
]

-- A byte of length, and as many bytes.
unfoldable pub read_string : Action SocksError Bytes
read_string = do len ← read_exact io 1; read_exact io (at len 0)

-- The reply of RFC 1929, and the end of its exchange.
unfoldable pub answer_password : Bool → Action SocksError (Unit {0})
answer_password matches = do
  write_all (0x01 ∷ (if matches then 0x00 else 0x01) ∷ [])
  if matches then pure tt else throw auth_failed

unfoldable pub check_password : Socks5Auth → Action SocksError (Unit {0})
check_password auth = do
  ver ← read_exact io 1
  uname ← read_string
  pass ← read_string
  answer_password (credentials_match auth uname pass)

-- The answer to the greeting.
unfoldable pub answer_greeting : Socks5Auth → Bytes → Action SocksError (Unit {0})
answer_greeting auth methods = do
  write_all (0x05 ∷ select_method auth.username methods ∷ [])
  if select_method auth.username methods == 0xff
      then throw auth_required
      else if select_method auth.username methods == 0x02
      then check_password auth
      else pure tt

unfoldable pub greet : Socks5Auth → Action SocksError (Unit {0})
greet auth = do
  header ← read_exact io 2
  if not (at header 0 == 0x05)
      then throw protocol
      else read_exact io (at header 1) >>= answer_greeting auth

-- The bound address is 0.0.0.0:0.
unfoldable pub write_reply : ℕ → Action SocksError (Unit {0})
write_reply rep = do
  write_all (0x05 ∷ rep ∷ 0x00 ∷ 0x01 ∷ replicate 6 0)
  if rep == 0x08 then throw address_not_supported else pure tt

-- `{}.{}.{}.{}` of four bytes.
unfoldable pub dotted : Bytes → Bytes
dotted b =
    show_u16 (at b 0)
    ++ (b'.' ∷ show_u16 (at b 1) ++ (b'.' ∷ show_u16 (at b 2) ++ (b'.' ∷ show_u16 (at b 3))))

module _ (connect : Target → Result (Unit {0}) SocksError) (show_v6 : Bytes → Bytes)
    (is_utf8 : Bytes → Bool) where
  unfoldable pub read_v4 : Action SocksError Target
  read_v4 = do
    addr ← read_exact io 4
    port ← read_exact io 2
    pure (record { host = dotted addr; port = port_of port })

  unfoldable pub read_domain : Action SocksError Target
  read_domain = do
    domain ← read_string
    port ← read_exact io 2
    if is_utf8 domain then pure (record { host = domain; port = port_of port }) else throw protocol

  unfoldable pub read_v6 : Action SocksError Target
  read_v6 = do
    addr ← read_exact io 16
    port ← read_exact io 2
    pure (record { host = show_v6 addr; port = port_of port })

  unfoldable pub read_address : ℕ → Action SocksError Target
  unfolding read_v4 read_domain read_v6
  read_address atyp =
      if atyp == 0x01
      then read_v4
      else if atyp == 0x03
      then read_domain
      else if atyp == 0x04
      then read_v6
      else throw address_not_supported

  -- The check of the command, behind the address.
  unfoldable pub check_command : ℕ → Target → Action SocksError Target
  check_command cmd target =
      if not (cmd == 0x01) then write_reply 0x07 >> throw command_not_supported else pure target

  unfoldable pub read_request : Action SocksError Target
  read_request = do
    req ← read_exact io 4
    if not (at req 0 == 0x05)
        then throw protocol
        else read_address (at req 3) >>= check_command (at req 1)

  -- `UpstreamConnector::connect`.
  unfoldable pub dial : Target → Action SocksError (Unit {0})
  dial target c = (connect target, record c { dialed = c.dialed ++ (target ∷ []) })

  -- The reply to an outcome of the connector.
  unfoldable pub answer_dial : Result (Unit {0}) SocksError → Action SocksError (Unit {0})
  answer_dial (ok _) = write_reply 0x00
  answer_dial (err e) = write_reply 0x01 >> throw e

  -- The match on `upstream.connect`, up to the relay.
  unfoldable pub open_upstream : Target → Action SocksError (Unit {0})
  open_upstream target c = answer_dial (dial target c).0 (dial target c).1

  unfoldable pub handle_socks5 : Socks5Auth → Action SocksError (Unit {0})
  handle_socks5 auth = do greet auth; target ← read_request; open_upstream target
