-- ===== src/Ssh/Exchange/Fetched.antt =====
-- The list that a host is asked for.
use mathlib.Core.Path.{subst}
use easy_connection.Prelude.{
  ℕ, ◌≤◌, ◌≡◌, refl, arith, Bool, false, not, Option, Bytes, ok, ◌>>=◌, ◌>>◌, fail_if, min, bind-ok,
  then-ok, ok_injective, is_empty, All,
}
use easy_connection.Prelude.Text.{Str, within}
use easy_connection.Prelude.Json.{Value}
use easy_connection.Ssh.Zones.{
  not_a_zone_host, load_status, ZoneList, is_ssh_banner, parse_zone_list,
}
use easy_connection.Ssh.Zones.Listed.{IsZone, parse_zone_list-IsZoneList}
use easy_connection.Ssh.Request.{ZoneFetchRequest}
use easy_connection.Ssh.Response.{HttpResponse}
use easy_connection.Ssh.Exchange.{
  Peer, exchange_attempt, reached_by, on_zones, zones_request, fetch_zones,
}

-- What the caller of `fetch_zones` is given.
pub record IsFetched (https : Bool) (response : HttpResponse) (list : ZoneList) : Type 0 where
  pub succeeded : (200 ≤ response.status) × (response.status ≤ 299)
  pub some_zones : is_empty list.zones ≡ false
  pub are_zones : All IsZone list.zones
  pub over_tls : list.https ≡ https

within_bounds : (n : ℕ) → not (within 200 299 n) ≡ false → (200 ≤ n) × (n ≤ 299)
within_bounds n e = ground (arith, e)

module _ (from_slice : Bytes → Option Value) where
  on_zones-IsFetched :
      (https : Bool) (response : HttpResponse) (list : ZoneList)
      → on_zones from_slice https response ≡ ok list
      → IsFetched https response list
  unfolding on_zones
  on_zones-IsFetched https response list e =
      let listed = parse_zone_list from_slice response.body >>= reached_by https in
      let asked =
        then-ok (is_ssh_banner response.body) not_a_zone_host
          (fail_if (not (within 200 299 response.status)) (load_status response.status) >> listed)
          list e in
      let read =
        then-ok (not (within 200 299 response.status)) (load_status response.status) listed list
          asked.1 in
      let (found, parsed, done) =
        bind-ok (parse_zone_list from_slice response.body) (reached_by https) list read.1 in
      let (_, zones) = parse_zone_list-IsZoneList from_slice response.body found parsed in
      subst (IsFetched https response) (ok_injective _ list done) (record {
        succeeded = within_bounds response.status read.0;
        some_zones = zones.some_zones;
        are_zones = zones.are_zones;
        over_tls = refl;
      })

module _ (to_string : Value → Str) (lossy : Bytes → Str) (from_utf8 : Bytes → Option Str)
    (from_slice : Bytes → Option Value) (network : Str → ℕ → Bool → Bytes → ℕ → Peer) where
  -- A list that is fetched comes from one exchange with the host of the request, of at most 8
  -- seconds, that was answered with a status from 200 to 299. It has a zone, every zone has an
  -- id and a name that are not empty, and its country, where it has one, is two capital letters;
  -- and the list says whether it came over TLS.
  pub fetch_zones-IsFetched :
      (req : ZoneFetchRequest) (list : ZoneList)
      → fetch_zones to_string lossy from_utf8 from_slice network req ≡ ok list
      → (response : HttpResponse) × (exchange_attempt lossy from_utf8 network req.host req.port
            req.https
            (zones_request to_string lossy req)
            (min req.timeout 8)
          ≡ ok response)
        × IsFetched req.https response list
  unfolding fetch_zones
  fetch_zones-IsFetched req list e =
      let (response, exchanged, made) =
        bind-ok
          (exchange_attempt lossy from_utf8 network req.host req.port req.https
            (zones_request to_string lossy req) (min req.timeout 8))
          (on_zones from_slice req.https) list e in
      (response, exchanged, on_zones-IsFetched from_slice req.https response list made)
