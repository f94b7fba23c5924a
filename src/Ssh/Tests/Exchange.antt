-- ===== src/Ssh/Tests/Exchange.antt =====
-- Requests and answers of a Smart Config host.
use mathlib.Core.Path.{ap, ◌∙◌}
use easy_connection.Prelude.{
  ℕ, ◌≡◌, refl, arith, Bool, true, false, Option, none, some, [], ◌∷◌, ◌++◌, map, Bytes, ok, ◌>>=◌,
  take, drop, eq_bytes,
}
use easy_connection.Prelude.Text.{
  Str, codes, utf8_char, trim, trim_start_matches, trim_end_matches, is_whitespace, split, lines,
  eq_ignore_ascii_case,
}
use easy_connection.Prelude.Json.{Value, string, array, object, nil, cons, member, end, find}
use easy_connection.Websocket.Upgrade.{words, split_once, find_value}
use easy_connection.Ssh.Zones.{
  ZoneList, is_ssh_banner, with_zones, read_zones, read_root, read_value, parse_zone_list,
  parse_items, parse_zone_item, first_str, iso_if_code, iso_from_zone_id, iso_from_flag, cut_two,
}
use easy_connection.Ssh.Zones.Welcome.{after_prefix, has_id, welcome_lines, zones_from_welcome}
use easy_connection.Ssh.Request.{ZoneFetchRequest, ZoneHttpRequest, http_request, fetch_request}
use easy_connection.Ssh.Request.Reader.{IsRead}
use easy_connection.Ssh.Request.Lines.{IsOneLine, head_of, zone_header, http_request-IsRead}
use easy_connection.Ssh.Response.{
  HttpResponse, find_header_end, reply_ended, read_decimal, parse_below, contains_text, any_chunked,
  head_has_chunked, status_of, content_length,
}
use easy_connection.Ssh.Exchange.{
  done, got, Peer, exchange_attempt, on_zones, zones_request, fetch_zones,
}
use easy_connection.Ssh.Exchange.Whole.{IsReply, exchange_attempt_whole}
use easy_connection.Ssh.Exchange.Fetched.{IsFetched, fetch_zones-IsFetched}

abbrev as_text : Bytes → Str
as_text bs = bs

abbrev some_text : Bytes → Option Str
some_text bs = some bs

abbrev printed : Value → Str
printed v = codes "{}"

abbrev one_zone : Bytes → Option Value
one_zone bs = some (
    object
      (member (codes "zones") (array (cons (string (codes " uk7 ")) (cons (object end) nil))) end))

abbrev head_sent : Bytes
head_sent = codes "HTTP/1.1 200 OK\r\ncontent-length: 2"

abbrev reply_sent : Bytes
reply_sent = head_sent ++ (codes "\r\n\r\n" ++ codes "{}")

abbrev host_of_zones : Str → ℕ → Bool → Bytes → ℕ → Peer
host_of_zones host port https request limit = record {
  opens = done;
  takes = done;
  reads = map got (take 20 reply_sent ∷ drop 20 reply_sent ∷ []) ++ [];
}

is_reply : IsReply as_text reply_sent 34 2
unfolding find_header_end content_length lines split find_value split_once eq_ignore_ascii_case
    eq_bytes trim trim_start_matches trim_end_matches is_whitespace parse_below read_decimal
    is_ssh_banner
is_reply = record {
  head_ends = refl;
  announced = refl;
  size = refl;
  fits = omega arith;
  no_banner = refl;
}

no_chunks : head_has_chunked head_sent ≡ false
unfolding head_has_chunked lines split any_chunked split_once eq_ignore_ascii_case eq_bytes
    contains_text after_prefix
no_chunks = refl

exchange_attempt_whole_example :
    exchange_attempt as_text some_text host_of_zones (codes "a.example") 80 false [] 8
    ≡ ok (record { status = status_of head_sent; body = codes "{}" })
exchange_attempt_whole_example =
    exchange_attempt_whole as_text some_text host_of_zones (codes "a.example") 80 false [] 8
      reply_sent 34 2 head_sent (take 20 reply_sent) (drop 20 reply_sent ∷ []) [] is_reply refl
      no_chunks (refl, (refl, tt)) refl refl

status_is : status_of head_sent ≡ 200
unfolding status_of lines split words is_whitespace parse_below read_decimal
status_is = refl

abbrev asked : ZoneFetchRequest
asked = fetch_request (codes "a.example") 80 (codes "u") (codes "p") [] false

abbrev list_got : ZoneList
list_got = record {
  hash = none;
  zones = record { id = codes "uk7"; name = codes "uk7"; iso = some (codes "GB") } ∷ [];
  https = false;
}

zones_got : on_zones one_zone false (record { status = 200; body = codes "{}" }) ≡ ok list_got
unfolding on_zones parse_zone_list is_ssh_banner read_value read_root read_zones with_zones
    parse_items parse_zone_item first_str iso_if_code iso_from_zone_id cut_two trim
    trim_start_matches trim_end_matches is_whitespace utf8_char eq_bytes find
zones_got = refl

fetched : fetch_zones printed as_text some_text one_zone host_of_zones asked ≡ ok list_got
unfolding fetch_zones
fetched =
    let answered =
      exchange_attempt_whole as_text some_text host_of_zones (codes "a.example") 80 false
        (zones_request printed as_text asked) 8 reply_sent 34 2 head_sent (take 20 reply_sent)
        (drop 20 reply_sent ∷ []) [] is_reply refl no_chunks (refl, (refl, tt)) refl refl in
    ap (λ r. r >>= on_zones one_zone false) answered
    ∙ (ap (λ n. on_zones one_zone false (record { status = n; body = codes "{}" })) status_is
        ∙ zones_got)

fetch_zones-IsFetched_example :
    (response : HttpResponse) × (exchange_attempt as_text some_text host_of_zones
        (codes "a.example")
        80
        false
        (zones_request printed as_text asked)
        8
      ≡ ok response)
    × IsFetched false response list_got
fetch_zones-IsFetched_example =
    fetch_zones-IsFetched printed as_text some_text one_zone host_of_zones asked list_got fetched

abbrev injected : ZoneHttpRequest
injected = record {
  method = codes "GET";
  host = codes "entry.example";
  port = 80;
  path = codes "/smart-path";
  content_type = none;
  zone_id = some (codes "de4\r\nX-Extra: injected");
  body = none;
  https = false;
}

injected_lines : IsOneLine injected
injected_lines = record {
  method_line = refl;
  host_line = refl;
  path_line = refl;
  content_line = tt;
}

http_request-IsRead_example : IsRead (head_of injected) [] (http_request as_text injected)
http_request-IsRead_example = http_request-IsRead as_text injected injected_lines

adds_no_line : zone_header injected.zone_id ≡ []
unfolding trim trim_start_matches trim_end_matches is_whitespace
adds_no_line = refl

-- An id that looks like a header is the value of X-Zone-Id.
stays_a_value : zone_header (some (codes " X-Extra:evil ")) ≡ codes "X-Zone-Id: X-Extra:evil" ∷ []
unfolding trim trim_start_matches trim_end_matches is_whitespace
stays_a_value = refl

flag_is_read :
    zones_from_welcome (codes "Welcome to AT1 🇦🇹 Austria\nactive: 1\nWelcome to AT1\n")
    ≡ record { id = codes "AT1"; name = codes "Austria"; iso = some (codes "AT") } ∷ []
unfolding zones_from_welcome lines split welcome_lines words after_prefix has_id iso_from_flag
    iso_if_code cut_two utf8_char trim trim_start_matches trim_end_matches is_whitespace eq_bytes
flag_is_read = refl

-- The largest length that a usize holds.
length_wraps :
    reply_ended as_text (codes "HTTP/1.1 200 OK\r\ncontent-length: 18446744073709551615\r\n\r\n{")
    ≡ true
unfolding reply_ended find_header_end content_length lines split find_value split_once
    eq_ignore_ascii_case eq_bytes trim trim_start_matches trim_end_matches is_whitespace parse_below
    read_decimal
length_wraps = refl
