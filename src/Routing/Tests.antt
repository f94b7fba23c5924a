-- ===== src/Routing/Tests.antt =====
-- The theorems about routes at concrete routes.
use mathlib.Core.List.{Memᴰ}
use easy_connection.Prelude.{inl, refl, arith, All, true, none, some, [], ◌∷◌, ◌++◌}
use easy_connection.Prelude.Net.{IpAddr, v4, octets, IsIp, IpNet}
use easy_connection.Prelude.Text.{Str, codes}
use easy_connection.Routing.Plan.{DefaultRoute, AddedRoute, RouteJournal, build_plan, server_route}
use easy_connection.Routing.Plan.Halves.{InNetwork}
use easy_connection.Routing.Plan.Cover.{build_plan_cover, Planned}
use easy_connection.Routing.Journal.{Table, AddOutcome, added, failed, apply_journal}
use easy_connection.Routing.Journal.Undo.{Undone, apply_journal-Undone}

-- Stand-ins for `Display`: the octets, and the octets with the prefix behind them.
abbrev show_ip : IpAddr → Str
show_ip ip = octets ip

abbrev show_net : IpNet → Str
show_net net = octets net.addr ++ (net.prefix ∷ [])

abbrev server : IpAddr
server = v4 (203 ∷ 0 ∷ 113 ∷ 7 ∷ [])

abbrev wifi : DefaultRoute
wifi = record {
  gateway = some (v4 (192 ∷ 168 ∷ 1 ∷ 1 ∷ []));
  dev = codes "wlan0";
  metric = some 600;
}

abbrev plan : RouteJournal
plan = build_plan show_ip show_net wifi (codes "easy0") (server ∷ []) true [] true

-- An address that is not the server's.
abbrev resolver : IpAddr
resolver = v4 (8 ∷ 8 ∷ 8 ∷ 8 ∷ [])

resolver-IsIp : IsIp resolver
resolver-IsIp = (refl, (omega arith, (omega arith, (omega arith, (omega arith, tt)))))

build_plan_cover_example :
    All
      (λ ip.
        Memᴰ (record { dest = show_ip ip; via = wifi.gateway; dev = codes "wlan0" }) plan.added)
      (server ∷ [])
    × ((net : IpNet) × InNetwork net resolver
        × Memᴰ (record { dest = show_net net; via = none; dev = codes "easy0" }) plan.added)
    × All (Planned show_ip show_net wifi (codes "easy0") true (server ∷ []) true []) plan.added
build_plan_cover_example =
    build_plan_cover show_ip show_net wifi (codes "easy0") true (server ∷ []) true [] resolver
      resolver-IsIp (inl refl)

-- A kernel that takes two routes, and then refuses.
abbrev takes_two : AddedRoute → Table → AddOutcome
takes_two r (_ ∷ _ ∷ _ ∷ _) = failed
takes_two r _ = added

apply_journal-Undone_example :
    Undone takes_two
      (λ _ _. true)
      (λ _ _. refl)
      (server_route show_ip show_net wifi server ∷ [])
      (apply_journal takes_two (λ _ _. true) plan (server_route show_ip show_net wifi server ∷ []))
apply_journal-Undone_example =
    apply_journal-Undone takes_two (λ _ _. true) (λ _ _. refl) plan
      (server_route show_ip show_net wifi server ∷ [])
