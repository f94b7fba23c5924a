-- ===== src/Nft/Order.antt =====
-- What the chains do with a packet. A chain is read as nftables reads it: the verdict of the first
-- rule that matches, and the policy, which is to accept, where none does. Which matches hold of a
-- packet is a parameter.
use mathlib.Core.List.{Memᴰ}
use easy_connection.Prelude.{
  ℕ, ◌≡◌, refl, arith, Bool, true, false, not, Option, none, some, ◌&&◌, List, [], ◌∷◌, ◌++◌,
  if◌then◌else◌, All, ◌==◌,
}
use easy_connection.Prelude.Net.{IpAddr, IpNet}
use easy_connection.Nft.{
  Match, Verdict, Rule, dns, dns_v4, tcp, tcp_v4, udp, udp_v4, established, ipv6_any, everything,
  return, accept, reject, redirect, exempt, all_to, redirects, nat_rules, rejections, filter_rules,
}

module _ (hits : Match → Bool) where
  unfoldable pub first_match : List Rule → Option Verdict
  first_match [] = none
  first_match (r ∷ rs) =
      let rest = first_match rs in if hits r.matching then some r.verdict else rest

  -- None of the matches holds of the packet.
  abbrev pub Misses : List Match → Type 0
  Misses = All (λ m. hits m ≡ false)

  first_match-miss :
      (v : Verdict) (ms : List Match) (rs : List Rule)
      → Misses ms
      → first_match (all_to v ms ++ rs) ≡ first_match rs
  unfolding first_match
  first_match-miss v [] rs h = refl
  first_match-miss v (m ∷ ms) rs (h, hs) = rw h (first_match-miss v ms rs hs)

  first_match-hit :
      (v : Verdict) (m : Match) (ms : List Match) (rs : List Rule)
      → Memᴰ m ms
      → hits m ≡ true
      → first_match (all_to v ms ++ rs) ≡ some v
  unfolding first_match
  first_match-hit v m [] rs i h = elim i [ ]
  first_match-hit v m (x ∷ ms) rs (Memᴰ.head e) h = ground arith
  first_match-hit v m (x ∷ ms) rs (Memᴰ.tail i) h = ground (arith, first_match-hit v m ms rs i h)

  module _ (server_ips : List IpAddr) (bypass : List IpNet) (transproxy_port dns_port udp_port : ℕ)
      (ipv6 kill_switch : Bool) where
    abbrev nat : Option Verdict
    nat = first_match (nat_rules server_ips bypass transproxy_port dns_port ipv6 udp_port)

    abbrev filter : Option Verdict
    filter = first_match (filter_rules server_ips bypass kill_switch ipv6 udp_port)

    -- A packet to a device, an address or a network that is exempt is neither redirected nor
    -- rejected, whatever the ports and the kill switch.
    pub exempt_passes :
        (m : Match)
        → Memᴰ m (exempt server_ips bypass)
        → hits m ≡ true
        → (nat ≡ some return) × (filter ≡ some accept)
    unfolding nat_rules filter_rules first_match
    exempt_passes m i h = (
      first_match-hit return m _ _ i h,
      ground (
        arith,
        first_match-hit accept m (exempt server_ips bypass) (rejections kill_switch ipv6 udp_port) i
            h,
      ),
    )

    -- With the kill switch every packet of a new flow that is not exempt is rejected.
    pub kill_switch_rejects :
        kill_switch ≡ true
        → Misses (established ∷ exempt server_ips bypass)
        → hits everything ≡ true
        → filter ≡ some reject
    unfolding filter_rules rejections first_match
    kill_switch_rejects k (e, x) h = ground (
      arith,
      first_match-miss accept (exempt server_ips bypass) (rejections kill_switch ipv6 udp_port) x,
    )

    -- Without the kill switch a packet of a new flow that is not exempt is rejected exactly when it
    -- is IPv6 while IPv6 is off, or UDP while UDP is not carried; else the policy accepts it.
    pub no_kill_switch_rejects :
        kill_switch ≡ false
        → Misses (established ∷ exempt server_ips bypass)
        → filter ≡ (
            if not ipv6 && hits ipv6_any
            then some reject
            else if udp_port == 0 && hits udp
            then some reject
            else none)
    unfolding filter_rules rejections first_match
    no_kill_switch_rejects k (e, x) = ground (
      arith,
      first_match-miss accept (exempt server_ips bypass) (rejections kill_switch ipv6 udp_port) x,
    )

    -- What is not exempt is redirected: DNS to the DNS port, TCP to the transparent proxy, and UDP
    -- to the UDP port if there is one; with IPv6 off, only what is IPv4.
    pub nat_redirects :
        Misses (exempt server_ips bypass)
        → nat ≡ (
            if hits (if ipv6 then dns else dns_v4)
            then some (redirect dns_port)
            else if hits (if ipv6 then tcp else tcp_v4)
            then some (redirect transproxy_port)
            else if not (udp_port == 0) && hits (if ipv6 then udp else udp_v4)
            then some (redirect udp_port)
            else none)
    unfolding nat_rules redirects first_match
    nat_redirects x = ground (
      arith,
      first_match-miss return (exempt server_ips bypass)
          (redirects transproxy_port dns_port ipv6 udp_port) x,
    )
