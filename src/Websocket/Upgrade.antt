-- ===== src/Websocket/Upgrade.antt =====
-- crates/websocket/src/ws.rs and http_upgrade.rs: the request, the headers of the response, and
-- what is asked of them. SHA-1, `from_utf8_lossy` and the random key are parameters.
pub mod Accepted
use easy_connection.Prelude.{
  ℕ, zero, suc, Bool, true, false, not, ◌&&◌, ◌||◌, Option, none, some, List, [], ◌∷◌, ◌++◌, ◌==◌,
  ◌-◌, is_empty, if◌then◌else◌, length, drop, Bytes, eq_bytes, ok, err,
}
use easy_connection.Prelude.Io.{Conn, Action, ◌>>=◌, ◌>>◌, pure, throw, read_exact, write_all}
use easy_connection.Prelude.Text.{
  Str, codes, utf8, trim, split, lines, is_whitespace, eq_ignore_ascii_case,
}
use easy_connection.Websocket.Frame.{WsError, io, handshake}
use easy_connection.Websocket.Base64.{base64_encode}

abbrev pub guid : Str
guid = codes "258EAFA5-E914-47DA-95CA-C5AB0DC85B11"

-- A character in front of the first word, or behind a space.
abbrev pub onto_word : Bool → ℕ → List Str → List Str
onto_word true c ws = (c ∷ []) ∷ ws
onto_word false c [] = (c ∷ []) ∷ []
onto_word false c (w ∷ ws) = (c ∷ w) ∷ ws

abbrev pub starts_space : Str → Bool
starts_space [] = true
starts_space (c ∷ s) = is_whitespace c

-- `split_whitespace`.
unfoldable pub words : Str → List Str
unfolding is_whitespace
words [] = []
words (c ∷ s) =
    let rest = words s in if is_whitespace c then rest else onto_word (starts_space s) c rest

abbrev pub second_word : List Str → Str
second_word (a ∷ b ∷ ws) = b
second_word _ = []

abbrev pub first_of : List Str → Str
first_of [] = []
first_of (l ∷ ls) = l

-- Whether the second word of the first line is 101.
unfoldable pub is_101 : Str → Bool
unfolding lines words eq_bytes
is_101 headers = eq_bytes (second_word (words (first_of (lines headers)))) (codes "101")

-- `split_once(':')`.
unfoldable pub split_once : Str → Option (Str × Str)
split_once [] = none
split_once (c ∷ s) =
    let rest = split_once s in
    if c == b':' then some ([], s) else elim rest [ none ↦ none | some p ↦ some (c ∷ p.0, p.1) ]

abbrev pub value_in : Str → Option (Str × Str) → Option Str
value_in name none = none
value_in name (some p) = if eq_ignore_ascii_case p.0 name then some (trim p.1) else none

-- The first line with this name.
unfoldable pub find_value : Str → List Str → Option Str
unfolding split_once
find_value name [] = none
find_value name (l ∷ ls) = elim (value_in name (split_once l)) [
  | none ↦ find_value name ls
  | some v ↦ some v
]

unfoldable pub header_value : Str → Str → Option Str
unfolding lines find_value
header_value headers name = find_value name (lines headers)

unfoldable pub any_token : Str → List Str → Bool
unfolding trim eq_ignore_ascii_case
any_token token [] = false
any_token token (p ∷ ps) = eq_ignore_ascii_case (trim p) token || any_token token ps

abbrev pub token_in : Str → Option Str → Bool
token_in token none = false
token_in token (some v) = any_token token (split b',' v)

-- `header_has_token` of ws.rs.
unfoldable pub header_has_token : Str → Str → Str → Bool
unfolding header_value any_token split
header_has_token headers name token = token_in token (header_value headers name)

abbrev pub crlf2 : Bytes
crlf2 = 13 ∷ 10 ∷ 13 ∷ 10 ∷ []

unfoldable pub ends_with : Bytes → Bytes → Bool
unfolding eq_bytes
ends_with buf tail = eq_bytes (drop (length buf - length tail) buf) tail

-- The bytes of the headers; `room` is what is left of the 8192 bytes.
unfoldable pub read_headers : ℕ → Bytes → Action WsError Bytes
unfolding ends_with
read_headers zero buf = throw handshake
read_headers (suc room) buf = read_exact io 1 >>= λ tmp.
    if ends_with (buf ++ tmp) crlf2 then pure (buf ++ tmp) else read_headers room (buf ++ tmp)

abbrev pub path_or_root : Str → Str
path_or_root path = if is_empty path then codes "/" else path

unfoldable pub upgrade_request : Str → Str → Str → Bytes
unfolding utf8
upgrade_request host path key = utf8 (
    codes "GET "
    ++ (path_or_root path
        ++ (codes " HTTP/1.1\r\nHost: "
            ++ (host
                ++ (codes "\r\nUpgrade: websocket\r\nConnection: Upgrade\r\nSec-WebSocket-Key: "
                    ++ (key ++ codes "\r\nSec-WebSocket-Version: 13\r\n\r\n"))))))

module _ (sha1 : Bytes → Bytes) (lossy : Bytes → Str) where
  unfoldable pub accept_key : Str → Str
  unfolding utf8 base64_encode
  accept_key key = base64_encode (sha1 (utf8 (key ++ guid)))

  -- What the response has to say.
  unfoldable pub check_accept : Str → Option Str → Action WsError (Unit {0})
  unfolding accept_key eq_ignore_ascii_case
  check_accept key none = throw handshake
  check_accept key (some got) =
      if not (eq_ignore_ascii_case got (accept_key key)) then throw handshake else pure tt

  unfoldable pub check_response : Str → Str → Action WsError (Unit {0})
  unfolding is_101 header_has_token header_value check_accept
  check_response key headers =
      if not (is_101 headers)
      then throw handshake
      else if not (header_has_token headers (codes "upgrade") (codes "websocket"))
          || not (header_has_token headers (codes "connection") (codes "upgrade"))
      then throw handshake
      else check_accept key (header_value headers (codes "sec-websocket-accept"))

  -- `websocket_client` until it has the stream, with the key that was drawn.
  unfoldable pub websocket_client : Str → Str → Bytes → Action WsError (Unit {0})
  unfolding upgrade_request read_headers check_response base64_encode
  websocket_client host path key_raw = do
    write_all (upgrade_request host path (base64_encode key_raw))
    headers ← read_headers 8192 []
    check_response (base64_encode key_raw) (lossy headers)
