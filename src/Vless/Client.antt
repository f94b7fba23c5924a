-- ===== src/Vless/Client.antt =====
-- crates/vless/src/lib.rs: `VlessConnector::start` over the engines, and `socks_connect` behind its
-- TCP connection. What `IpAddr` reads is a parameter. A host is the bytes of its text.
pub mod Loop
use easy_connection.Prelude.{
  ℕ, ◌+◌, Bool, true, false, not, ◌||◌, ◌&&◌, Option, none, some, List, [], ◌∷◌, ◌++◌, ◌==◌, ltb,
  leb, if◌then◌else◌, is_empty, length, Bytes, get_or, u16_to_be, eq_bytes, Result, ok, err,
}
use easy_connection.Prelude.Text.{Str, codes, join, to_ascii_lowercase}
use easy_connection.Prelude.Net.{IpAddr, v4, v6}
use easy_connection.Prelude.Io.{Conn, Action, ◌>>=◌, ◌>>◌, pure, throw, read_exact, write_all}
use easy_connection.Vless.Names.{VlessError, config, engine}

-- `SocksError::Upstream`, by its reason.
pub data ClientError : Type 0 where
  io : ClientError
  rejected : Bytes → ClientError
  invalid_host : ClientError
  failed : ℕ → ClientError
  invalid_type : ℕ → ClientError

abbrev pub at : Bytes → ℕ → ℕ
at b i = get_or b i 0

-- The destination in the request; none for a host that is no address and does not fit.
abbrev pub destination : Bytes → Option IpAddr → Option Bytes
destination host (some (v4 o)) = some (1 ∷ o)
destination host (some (v6 o)) = some (4 ∷ o)
destination host none =
    if is_empty host || ltb 255 (length host) then none else some (3 ∷ length host ∷ host)

abbrev pub or_throw : Option Bytes → Action ClientError Bytes
or_throw none = throw invalid_host
or_throw (some b) = pure b

-- The length of the address that the engine has bound.
unfoldable pub address_len : ℕ → Action ClientError ℕ
address_len atyp =
    if atyp == 1
    then pure 4
    else if atyp == 4
    then pure 16
    else if atyp == 3
    then read_exact io 1 >>= (λ len. pure (at len 0))
    else throw (invalid_type atyp)

abbrev pub read_bound : ℕ → Action ClientError (Unit {0})
read_bound len = read_exact io (len + 2) >>= λ bound. pure tt

unfoldable pub on_reply : Bytes → Action ClientError (Unit {0})
unfolding address_len
on_reply reply =
    if not (at reply 0 == 5) || not (at reply 1 == 0)
    then throw (failed (at reply 1))
    else address_len (at reply 3) >>= read_bound

abbrev pub read_reply : Action ClientError (Unit {0})
read_reply = read_exact io 4 >>= on_reply

abbrev pub send_request : ℕ → Bytes → Action ClientError (Unit {0})
send_request port target = write_all ((5 ∷ 1 ∷ 0 ∷ target) ++ u16_to_be port) >> read_reply

-- Behind the answer to the greeting.
unfoldable pub on_greeting :
    (Bytes → Option IpAddr) → Bytes → ℕ → Bytes → Action ClientError (Unit {0})
on_greeting parse host port greeting =
    if not (eq_bytes greeting (5 ∷ 0 ∷ []))
    then throw (rejected greeting)
    else or_throw (destination host (parse host)) >>= send_request port

unfoldable pub socks_connect : (Bytes → Option IpAddr) → Bytes → ℕ → Action ClientError (Unit {0})
unfolding on_reply on_greeting
socks_connect parse host port =
    write_all (5 ∷ 1 ∷ 0 ∷ []) >> (read_exact io 2 >>= on_greeting parse host port)

pub data EngineKind : Type 0 where
  xray sing_box : EngineKind

abbrev pub label : EngineKind → Str
label xray = codes "xray"
label sing_box = codes "sing-box"

-- The engines that `EASY_VLESS_ENGINE` asks for; none if it is not set.
unfoldable pub candidates : Option Str → Result (List EngineKind) VlessError
candidates none = ok (xray ∷ sing_box ∷ [])
candidates (some requested) =
    let name = to_ascii_lowercase requested in
    if eq_bytes name (codes "auto") || is_empty name
    then ok (xray ∷ sing_box ∷ [])
    else if eq_bytes name (codes "xray")
    then ok (xray ∷ [])
    else if eq_bytes name (codes "sing-box") || eq_bytes name (codes "singbox")
    then ok (sing_box ∷ [])
    else err (
        config
          (codes "unknown EASY_VLESS_ENGINE `" ++ (name ++ codes "`; use auto, xray, or sing-box")))

module _ {C : Type 0} (start_engine : EngineKind → Result C VlessError)
    (show : VlessError → Str) where
  -- The loop over the candidates; the failures are kept, the latest last.
  unfoldable pub try_engines : List EngineKind → List Str → Result C VlessError
  try_engines [] failures = err (
      engine (
        codes "could not start an external VLESS engine ("
        ++ (join (codes "; ") failures
            ++ codes
                "). Install Xray or sing-box in PATH, or set EASY_XRAY_PATH / EASY_SING_BOX_PATH")))
  try_engines (kind ∷ kinds) failures = elim (start_engine kind) [
    | ok connector ↦ ok connector
    | err e ↦ try_engines kinds (failures ++ ((label kind ++ (codes ": " ++ show e)) ∷ []))
  ]

  abbrev pub try_all : Result (List EngineKind) VlessError → Result C VlessError
  try_all (ok kinds) = try_engines kinds []
  try_all (err e) = err e

  unfoldable pub start : Option Str → Result C VlessError
  unfolding try_engines candidates
  start requested = try_all (candidates requested)
