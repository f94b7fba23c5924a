-- ===== src/Dns/Policy.antt =====
-- crates/dns/src/policy.rs: which servers are asked, and whether systemd-resolved is touched.
use easy_connection.Prelude.{
  Bool, true, false, ◌&&◌, List, [], ◌∷◌, if◌then◌else◌, is_empty, not, ◌≡◌, ◌≢◌, ◌⊎◌, inl, inr,
  refl, arith, eq_bytes,
}
use easy_connection.Prelude.Text.{Str, codes}

pub data DnsPolicy : Type 0 where
  system : DnsPolicy
  tunnel : DnsPolicy
  custom : DnsPolicy
  remote : DnsPolicy

unfoldable pub parse : Str → DnsPolicy
unfolding eq_bytes
parse mode =
    if eq_bytes mode (codes "custom")
    then custom
    else if eq_bytes mode (codes "remote")
    then remote
    else if eq_bytes mode (codes "system")
    then system
    else tunnel

unfoldable pub as_str : DnsPolicy → Str
as_str system = codes "system"
as_str tunnel = codes "tunnel"
as_str custom = codes "custom"
as_str remote = codes "remote"

abbrev pub is_system : DnsPolicy → Bool
is_system system = true
is_system _ = false

unfoldable pub effective_policy : Bool → DnsPolicy → DnsPolicy
effective_policy routing_is_tunnel configured =
    if routing_is_tunnel && is_system configured then tunnel else configured

-- `default_dns_servers` of lib.rs.
abbrev pub default_dns_servers : List Str
default_dns_servers = codes "1.1.1.1" ∷ codes "8.8.8.8" ∷ []

unfoldable pub resolve_servers : DnsPolicy → List Str → List Str
resolve_servers system configured = []
resolve_servers custom configured =
    if not (is_empty configured) then configured else default_dns_servers
resolve_servers _ configured = if not (is_empty configured) then configured else default_dns_servers

unfoldable pub should_configure_resolved : DnsPolicy → Bool
should_configure_resolved policy = not (is_system policy)

-- A policy is read back from its name.
pub parse-as_str : (p : DnsPolicy) → parse (as_str p) ≡ p
unfolding parse as_str
parse-as_str system = refl
parse-as_str tunnel = refl
parse-as_str custom = refl
parse-as_str remote = refl

-- While routing goes through the tunnel no policy leaves the resolver of the local network in
-- place: systemd-resolved is configured, with the servers of the configuration or, if it has none,
-- the default ones, so with at least one server; and the policy in force is the configured one
-- unless that is `system`, which becomes `tunnel`.
pub tunnel_never_leaks :
    (p : DnsPolicy) (configured : List Str)
    → let q = effective_policy true p in
      (should_configure_resolved q ≡ true)
      × (resolve_servers q configured
          ≡ (if is_empty configured then default_dns_servers else configured))
      × (resolve_servers q configured ≢ [])
      × ((q ≡ p) ⊎ ((p ≡ system) × (q ≡ tunnel)))
unfolding should_configure_resolved effective_policy resolve_servers
tunnel_never_leaks system configured = (refl, ground arith, ground arith, inr (refl, refl))
tunnel_never_leaks tunnel configured = (refl, ground arith, ground arith, inl refl)
tunnel_never_leaks custom configured = (refl, ground arith, ground arith, inl refl)
tunnel_never_leaks remote configured = (refl, ground arith, ground arith, inl refl)
