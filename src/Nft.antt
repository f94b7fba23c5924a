-- ===== src/Nft.antt =====
-- crates/nftables/src/apply.rs, `render_table`: the script of `table inet easy`. Each line that is
-- pushed is a rule, of what it matches and its verdict, and `render_rule` is its text. The texts
-- of addresses and networks are those of `Display`, and are parameters.
pub mod Order
mod Tests
use easy_connection.Prelude.{
  ℕ, zero, suc, ◌+◌, ◌/◌, ◌%◌, Bool, not, List, [], ◌∷◌, ◌++◌, map, ltb, ◌==◌, if◌then◌else◌,
}
use easy_connection.Prelude.Net.{IpAddr, v4, v6, IpNet}
use easy_connection.Prelude.Text.{Str, codes, show_u16}

abbrev pub tun_name : Str
tun_name = codes "easy0"

abbrev pub nft_table : Str
nft_table = codes "easy"

-- The `meta l4proto` forms match both families, the `ip protocol` forms IPv4 alone.
pub data Match : Type 0 where
  oifname : Str → Match
  loopback_v4 : Match
  loopback_v6 : Match
  host : IpAddr → Match
  net : IpNet → Match
  dns dns_v4 tcp tcp_v4 udp udp_v4 : Match
  established : Match
  ipv6_any : Match
  everything : Match

pub data Verdict : Type 0 where
  return accept reject : Verdict
  redirect : ℕ → Verdict

pub record Rule : Type 0 where
  pub matching : Match
  pub verdict : Verdict

abbrev pub rule : Match → Verdict → Rule
rule m v = record { matching = m; verdict = v }

abbrev pub when : Bool → Rule → List Rule
when b r = if b then r ∷ [] else []

-- The rules that both chains start from, with their own verdict: the devices and loopback
-- addresses, the servers, and the networks that skip the tunnel.
abbrev pub exempt : List IpAddr → List IpNet → List Match
exempt server_ips bypass =
    oifname (codes "lo")
    ∷ oifname tun_name
    ∷ loopback_v4
    ∷ loopback_v6
    ∷ (map host server_ips ++ map net bypass)

abbrev pub all_to : Verdict → List Match → List Rule
all_to v = map (λ m. rule m v)

-- The two branches on `ipv6` at the end of the NAT chain.
unfoldable pub redirects : ℕ → ℕ → Bool → ℕ → List Rule
redirects transproxy_port dns_port ipv6 udp_port =
    if ipv6
    then rule dns (redirect dns_port)
      ∷ rule tcp (redirect transproxy_port)
      ∷ when (not (udp_port == 0)) (rule udp (redirect udp_port))
    else rule dns_v4 (redirect dns_port)
      ∷ rule tcp_v4 (redirect transproxy_port)
      ∷ when (not (udp_port == 0)) (rule udp_v4 (redirect udp_port))

unfoldable pub nat_rules : List IpAddr → List IpNet → ℕ → ℕ → Bool → ℕ → List Rule
unfolding redirects
nat_rules server_ips bypass transproxy_port dns_port ipv6 udp_port =
    all_to return (exempt server_ips bypass) ++ redirects transproxy_port dns_port ipv6 udp_port

-- The end of the filter chain.
unfoldable pub rejections : Bool → Bool → ℕ → List Rule
rejections kill_switch ipv6 udp_port =
    when (not ipv6) (rule ipv6_any reject)
    ++ (when (udp_port == 0) (rule udp reject) ++ when kill_switch (rule everything reject))

unfoldable pub filter_rules : List IpAddr → List IpNet → Bool → Bool → ℕ → List Rule
unfolding rejections
filter_rules server_ips bypass kill_switch ipv6 udp_port =
    rule established accept
    ∷ (all_to accept (exempt server_ips bypass) ++ rejections kill_switch ipv6 udp_port)

module _ (show_ip : IpAddr → Str) (show_net : IpNet → Str) where
  -- The keyword of the family of a destination.
  abbrev daddr : IpAddr → Str
  daddr (v4 _) = codes "ip daddr "
  daddr (v6 _) = codes "ip6 daddr "

  render_match : Match → Str
  render_match (oifname dev) = codes "oifname \"" ++ (dev ++ codes "\" ")
  render_match loopback_v4 = codes "ip daddr 127.0.0.0/8 "
  render_match loopback_v6 = codes "ip6 daddr ::1 "
  render_match (host ip) = daddr ip ++ (show_ip ip ++ codes " ")
  render_match (net n) = daddr n.addr ++ (show_net n ++ codes " ")
  render_match dns = codes "meta l4proto udp udp dport 53 "
  render_match dns_v4 = codes "ip protocol udp udp dport 53 "
  render_match tcp = codes "meta l4proto tcp "
  render_match tcp_v4 = codes "ip protocol tcp "
  render_match udp = codes "meta l4proto udp "
  render_match udp_v4 = codes "ip protocol udp "
  render_match established = codes "ct state established,related "
  render_match ipv6_any = codes "meta nfproto ipv6 "
  render_match everything = []

  render_verdict : Verdict → Str
  render_verdict return = codes "return"
  render_verdict accept = codes "accept"
  render_verdict reject = codes "reject with icmpx type admin-prohibited"
  render_verdict (redirect port) = codes "redirect to :" ++ show_u16 port

  unfoldable pub render_rule : Rule → Str
  unfolding render_match render_verdict show_u16
  render_rule r =
      codes "    " ++ (render_match r.matching ++ (render_verdict r.verdict ++ codes "\n"))

  unfoldable pub render_rules : List Rule → Str
  render_rules [] = []
  render_rules (r ∷ rs) = render_rule r ++ render_rules rs

  unfoldable pub render_table : List IpAddr → List IpNet → Bool → ℕ → ℕ → Bool → ℕ → Str
  unfolding render_rules render_rule nat_rules filter_rules
  render_table server_ips bypass kill_switch transproxy_port dns_port ipv6 udp_port =
      codes "table inet "
      ++ (nft_table
          ++ (codes
                " {\n\n  chain output_nat {\n    type nat hook output priority -100; policy accept;\n"
              ++ (render_rules (nat_rules server_ips bypass transproxy_port dns_port ipv6 udp_port)
                  ++ (codes
                        "  }\n\n  chain output_filter {\n    type filter hook output priority 0; policy accept;\n"
                      ++ (render_rules (filter_rules server_ips bypass kill_switch ipv6 udp_port)
                          ++ codes "  }\n}\n")))))
