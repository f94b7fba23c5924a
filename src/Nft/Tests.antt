-- ===== src/Nft/Tests.antt =====
-- The theorems about the chains at concrete packets.
use easy_connection.Prelude.{◌≡◌, refl, Bool, true, false, some, [], ◌∷◌}
use easy_connection.Prelude.Net.{IpAddr, v4}
use easy_connection.Nft.{Match, host, tcp, tcp_v4, udp, udp_v4, everything, reject, filter_rules}
use easy_connection.Nft.Order.{first_match, kill_switch_rejects}

abbrev server : IpAddr
server = v4 (203 ∷ 0 ∷ 113 ∷ 7 ∷ [])

-- A TCP packet to the server.
abbrev to_server : Match → Bool
to_server (host _) = true
to_server everything = true
to_server tcp = true
to_server tcp_v4 = true
to_server _ = false

-- A UDP packet over IPv4, to an address that is not exempt.
abbrev outside : Match → Bool
outside everything = true
outside udp = true
outside udp_v4 = true
outside _ = false

kill_switch_rejects_example :
    first_match outside (filter_rules (server ∷ []) [] true true 13454) ≡ some reject
kill_switch_rejects_example =
    kill_switch_rejects outside (server ∷ []) [] 13450 13453 13454 true true refl
      (refl, (refl, (refl, (refl, (refl, (refl, tt)))))) refl
