-- ===== src/Ssh/Request.antt =====
-- crates/ssh/src/zones.rs: the request to a Smart Config host. The printer of serde_json and
-- `from_utf8_lossy` are parameters.
pub mod Reader
pub mod Lines
use easy_connection.Prelude.{
  ℕ, Bool, true, false, not, ◌&&◌, Option, none, some, List, [], ◌∷◌, ◌++◌, ◌==◌, if◌then◌else◌,
  is_empty, length, Bytes, contains,
}
use easy_connection.Prelude.Text.{Str, codes, utf8, within, trim, all, show_u16, show_usize}
use easy_connection.Prelude.Json.{Value, string, object, end, member}

pub record ZoneFetchRequest : Type 0 where
  pub host : Str
  pub port : ℕ
  pub username : Str
  pub password : Str
  pub path : Str
  pub https : Bool
  -- In seconds.
  pub timeout : ℕ

abbrev pub fetch_request : Str → ℕ → Str → Str → Str → Bool → ZoneFetchRequest
fetch_request host port username password path https = record {
  host = host;
  port = port;
  username = username;
  password = password;
  path = path;
  https = https;
  timeout = 15;
}

pub record ZoneHttpRequest : Type 0 where
  pub method : Str
  pub host : Str
  pub port : ℕ
  pub path : Str
  pub content_type : Option Str
  pub zone_id : Option Str
  pub body : Option Bytes
  pub https : Bool

abbrev pub ssh_username_for_zone : Str → Option Str → Str
ssh_username_for_zone username zone_id = username

abbrev pub starts_bracket : Str → Bool
starts_bracket [] = false
starts_bracket (c ∷ s) = c == b'['

abbrev pub bracketed : Str → Str
bracketed host =
    if contains host b':' && not (starts_bracket host)
    then codes "[" ++ (host ++ codes "]")
    else host

unfoldable pub host_header : Str → ℕ → Bool → Str
unfolding show_u16 contains
host_header host port https =
    let default_port = if https then 443 else 80 in
    if port == default_port then bracketed host else bracketed host ++ (codes ":" ++ show_u16 port)

abbrev pub is_graphic : ℕ → Bool
is_graphic b = within 33 126 b

-- The line of the zone, where its id can stand in one.
unfoldable pub zone_line : Option Str → Str
unfolding trim utf8
zone_line none = []
zone_line (some id) =
    if not (is_empty (trim id)) && all is_graphic (utf8 (trim id))
    then codes "X-Zone-Id: " ++ (trim id ++ codes "\r\n")
    else []

abbrev pub type_line : Option Str → Str
type_line none = []
type_line (some ct) = codes "Content-Type: " ++ (ct ++ codes "\r\n")

abbrev pub default_path : Str → Str
default_path path = if is_empty path then codes "/" else path

-- The lines that every request has.
unfoldable pub first_lines : ZoneHttpRequest → Str
unfolding host_header
first_lines req =
    req.method
    ++ (codes " "
        ++ (default_path req.path
            ++ (codes " HTTP/1.1\r\nHost: "
                ++ (host_header req.host req.port req.https
                    ++ codes
                        "\r\nConnection: close\r\nUser-Agent: smart_config/1.0\r\nAccept: */*\r\n"))))

module _ (to_string : Value → Str) where
  unfoldable pub zone_command_body : Str → Str → Str
  zone_command_body username password = to_string (
      object (
        member (codes "command") (string (codes "zone")) (
          member (codes "username") (string username)
            (member (codes "password") (string password) end))))

module _ (lossy : Bytes → Str) where
  unfoldable pub last_lines : Option Bytes → Str
  unfolding show_usize
  last_lines none = codes "\r\n"
  last_lines (some body) =
      codes "Content-Length: " ++ (show_usize (length body) ++ (codes "\r\n\r\n" ++ lossy body))

  unfoldable pub http_request : ZoneHttpRequest → Str
  unfolding first_lines zone_line last_lines
  http_request req =
      first_lines req
      ++ (zone_line req.zone_id ++ (type_line req.content_type ++ last_lines req.body))
