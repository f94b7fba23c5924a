-- ===== src/Ssh/Exchange.antt =====
-- crates/ssh/src/zones.rs: one request to a Smart Config host and its answer. What the network does
-- is a parameter, up to the time limit of the exchange.
pub mod Whole
pub mod Fetched
use easy_connection.Prelude.{
  ℕ, ◌+◌, Bool, not, ◌&&◌, ◌||◌, Option, none, some, List, [], ◌∷◌, ◌++◌, ◌==◌, ltb, min,
  if◌then◌else◌, is_empty, length, Bytes, Result, ok, err, ◌>>=◌, ◌>>◌, fail_if,
}
use easy_connection.Prelude.Text.{Str, codes, utf8, within}
use easy_connection.Prelude.Json.{Value}
use easy_connection.Ssh.Zones.{
  ZonesError, could_not_load, zone_io, too_large, not_a_zone_host, load_status, config_status,
  ZoneList, is_ssh_banner, parse_zone_list,
}
use easy_connection.Ssh.Request.{ZoneFetchRequest, ZoneHttpRequest, zone_command_body, http_request}
use easy_connection.Ssh.Response.{HttpResponse, reply_ended, split_http}

-- An operation on the stream is done, has failed, or is not done when the time is over.
pub data Step : Type 0 where
  done failed late : Step

-- What a read gives: bytes, none of them at the end of the stream, or an error.
pub data Read : Type 0 where
  got : Bytes → Read
  broken : Read

-- What the host does. Where the reads are over, so is the time.
pub record Peer : Type 0 where
  pub opens : Step
  pub takes : Step
  pub reads : List Read

abbrev pub in_time : Step → Result (Unit {0}) ZonesError
in_time done = ok tt
in_time failed = err zone_io
in_time late = err could_not_load

abbrev pub max_body : ℕ
max_body = 1_048_576

module _ (lossy : Bytes → Str) where
  -- The loop, with the bytes that it has.
  unfoldable pub read_answer : List Read → Bytes → Result Bytes ZonesError
  unfolding is_ssh_banner reply_ended
  read_answer [] buf = err could_not_load
  read_answer (broken ∷ reads) buf = err zone_io
  read_answer (got bytes ∷ reads) buf =
      let rest = read_answer reads (buf ++ bytes) in
      if is_empty bytes
      then ok buf
      else if ltb (max_body + 8192) (length buf + length bytes)
      then err too_large
      else if is_ssh_banner (buf ++ bytes) || reply_ended lossy (buf ++ bytes)
      then ok (buf ++ bytes)
      else rest

  unfoldable pub read_from : Peer → Result Bytes ZonesError
  unfolding read_answer
  read_from peer = do in_time peer.opens; in_time peer.takes; read_answer peer.reads []

unfoldable pub on_config : HttpResponse → Result Bytes ZonesError
on_config response =
    if not (response.status == 200) then err (config_status response.status) else ok response.body

module _ (lossy : Bytes → Str) (from_utf8 : Bytes → Option Str)
    (network : Str → ℕ → Bool → Bytes → ℕ → Peer) where
  -- The host, the port, whether over TLS, the request and the limit in seconds.
  unfoldable pub exchange_attempt : Str → ℕ → Bool → Bytes → ℕ → Result HttpResponse ZonesError
  unfolding read_from split_http
  exchange_attempt host port https request limit = do
    buf ← read_from lossy (network host port https request limit)
    split_http from_utf8 buf

  unfoldable pub get_smart_config_body : Str → ℕ → Str → Bool → Option Str → Result Bytes ZonesError
  unfolding http_request utf8 exchange_attempt on_config
  get_smart_config_body host port path https zone_id = do
    response ←
        exchange_attempt host port https
          (utf8 (
            http_request lossy (record {
              method = codes "GET";
              host = host;
              port = port;
              path = path;
              content_type = none;
              zone_id = zone_id;
              body = none;
              https = https;
            })))
          8
    on_config response

abbrev pub reached_by : Bool → ZoneList → Result ZoneList ZonesError
reached_by https list = ok (record { hash = list.hash; zones = list.zones; https = https })

module _ (from_slice : Bytes → Option Value) where
  unfoldable pub on_zones : Bool → HttpResponse → Result ZoneList ZonesError
  unfolding is_ssh_banner parse_zone_list
  on_zones https response = do
    fail_if (is_ssh_banner response.body) not_a_zone_host
    fail_if (not (within 200 299 response.status)) (load_status response.status)
    list ← parse_zone_list from_slice response.body
    reached_by https list

module _ (to_string : Value → Str) (lossy : Bytes → Str) where
  unfoldable pub zones_request : ZoneFetchRequest → Bytes
  unfolding zone_command_body http_request utf8
  zones_request req = utf8 (
      http_request lossy (record {
        method = codes "POST";
        host = req.host;
        port = req.port;
        path = req.path;
        content_type = some (codes "application/json");
        zone_id = none;
        body = some (utf8 (zone_command_body to_string req.username req.password));
        https = req.https;
      }))

module _ (to_string : Value → Str) (lossy : Bytes → Str) (from_utf8 : Bytes → Option Str)
    (from_slice : Bytes → Option Value) (network : Str → ℕ → Bool → Bytes → ℕ → Peer) where
  unfoldable pub fetch_zones : ZoneFetchRequest → Result ZoneList ZonesError
  unfolding zones_request exchange_attempt on_zones
  fetch_zones req = do
    response ←
        exchange_attempt lossy from_utf8 network req.host req.port req.https
          (zones_request to_string lossy req) (min req.timeout 8)
    on_zones from_slice req.https response
