-- ===== src/Websocket/HttpUpgrade.antt =====
-- crates/websocket/src/http_upgrade.rs: the upgrade to a raw stream.
use easy_connection.Prelude.{
  Bool, false, not, ◌||◌, Option, none, some, List, [], ◌∷◌, ◌++◌, if◌then◌else◌, Bytes,
}
use easy_connection.Prelude.Io.{Action, ◌>>=◌, ◌>>◌, pure, throw, write_all}
use easy_connection.Prelude.Text.{Str, codes, utf8, lines, split, eq_ignore_ascii_case}
use easy_connection.Websocket.Frame.{WsError, handshake}
use easy_connection.Websocket.Upgrade.{split_once, any_token, is_101, read_headers, path_or_root}

-- Whether a line has this name and this token.
abbrev pub line_has : Str → Str → Option (Str × Str) → Bool
line_has name token none = false
line_has name token (some p) =
    if eq_ignore_ascii_case p.0 name then any_token token (split b',' p.1) else false

unfoldable pub any_line_has : Str → Str → List Str → Bool
unfolding split_once any_token split eq_ignore_ascii_case
any_line_has name token [] = false
any_line_has name token (l ∷ ls) = line_has name token (split_once l) || any_line_has name token ls

-- `header_has_token` of http_upgrade.rs: any line with the name may have the token.
unfoldable pub some_header_has_token : Str → Str → Str → Bool
unfolding lines any_line_has
some_header_has_token headers name token = any_line_has name token (lines headers)

unfoldable pub raw_request : Str → Str → Bytes
unfolding utf8
raw_request host path = utf8 (
    codes "GET "
    ++ (path_or_root path
        ++ (codes " HTTP/1.1\r\nHost: "
            ++ (host ++ codes "\r\nConnection: Upgrade\r\nUpgrade: websocket\r\n\r\n"))))

unfoldable pub check_upgrade : Str → Action WsError (Unit {0})
unfolding is_101 some_header_has_token
check_upgrade headers =
    if not (is_101 headers)
    then throw handshake
    else if not (some_header_has_token headers (codes "upgrade") (codes "websocket"))
        || not (some_header_has_token headers (codes "connection") (codes "upgrade"))
    then throw handshake
    else pure tt

-- `lossy` is `from_utf8_lossy`.
unfoldable pub http_upgrade : (Bytes → Str) → Str → Str → Action WsError (Unit {0})
unfolding raw_request read_headers check_upgrade
http_upgrade lossy host path = do
  write_all (raw_request host path)
  headers ← read_headers 8192 []
  check_upgrade (lossy headers)
