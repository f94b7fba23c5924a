-- ===== src/Routing/Plan.antt =====
-- crates/routing/src/apply.rs, `build_plan`. The texts of addresses and networks are those that
-- `Display` of `std::net::IpAddr` and of `ipnet::IpNet` print, and are parameters.
pub mod Halves
pub mod Cover
use easy_connection.Prelude.{
  ℕ, ◌≡◌, ◌≢◌, ◌⊎◌, inl, inr, refl, arith, Bool, true, false, not, Option, none, some, List, [],
  ◌∷◌, ◌++◌, map, if◌then◌else◌, All,
}
use mathlib.Core.List.{Memᴰ}
use easy_connection.Prelude.Net.{IpAddr, v4, v6, is_ipv6, IpNet}
use easy_connection.Prelude.Text.{Str}
use easy_connection.Routing.Cidrs.{private_cidrs, split_default_v4, split_default_v6}

pub record DefaultRoute : Type 0 where
  pub gateway : Option IpAddr
  pub dev : Str
  pub metric : Option ℕ

pub record AddedRoute : Type 0 where
  pub dest : Str
  pub via : Option IpAddr
  pub dev : Str

pub record RouteJournal : Type 0 where
  pub added : List AddedRoute
  pub original_default : Option DefaultRoute

-- `gateway.filter(|g| g.is_ipv6())`.
abbrev pub ipv6_gateway : Option IpAddr → Option IpAddr
ipv6_gateway none = none
ipv6_gateway (some g) = if is_ipv6 g then some g else none

module _ (show_ip : IpAddr → Str) (show_net : IpNet → Str) where
  -- One network of the bypass loop.
  bypass_route : DefaultRoute → Bool → IpNet → List AddedRoute
  bypass_route default ipv6 net =
      if not (is_ipv6 net.addr)
      then record { dest = show_net net; via = default.gateway; dev = default.dev } ∷ []
      else if ipv6
      then record { dest = show_net net; via = ipv6_gateway default.gateway; dev = default.dev }
        ∷ []
      else []

  bypass_routes : DefaultRoute → Bool → List IpNet → List AddedRoute
  bypass_routes default ipv6 [] = []
  bypass_routes default ipv6 (net ∷ nets) =
      bypass_route default ipv6 net ++ bypass_routes default ipv6 nets

  abbrev pub server_route : DefaultRoute → IpAddr → AddedRoute
  server_route default ip = record { dest = show_ip ip; via = default.gateway; dev = default.dev }

  abbrev pub tun_route : Str → IpNet → AddedRoute
  tun_route tun_name net = record { dest = show_net net; via = none; dev = tun_name }

  unfoldable pub build_plan :
      DefaultRoute → Str → List IpAddr → Bool → List IpNet → Bool → RouteJournal
  unfolding bypass_routes bypass_route
  build_plan default tun_name server_ips bypass_private extra_bypass ipv6 =
      let servers = map (server_route default) server_ips in
      let bypass =
        if bypass_private then bypass_routes default ipv6 (private_cidrs ++ extra_bypass) else [] in
      let tunnel = map (tun_route tun_name) split_default_v4 in
      let tunnel_v6 = if ipv6 then map (tun_route tun_name) split_default_v6 else [] in
      record {
        added = servers ++ (bypass ++ (tunnel ++ tunnel_v6));
        original_default = some default;
      }
