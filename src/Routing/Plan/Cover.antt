-- ===== src/Routing/Plan/Cover.antt =====
-- What a plan routes around the tunnel, and what into it.
use mathlib.Core.List.{Memᴰ}
use mathlib.Core.Path.{subst, sym}
use easy_connection.Prelude.{
  ◌≡◌, ◌⊎◌, inl, inr, refl, ap, arith, Bool, true, false, none, List, [], ◌∷◌, ◌++◌, map,
  if◌then◌else◌, All,
}
use easy_connection.Prelude.Net.{IpAddr, v4, v6, is_ipv6, IsIp, IpNet}
use easy_connection.Prelude.Text.{Str}
use easy_connection.Routing.Cidrs.{private_cidrs, split_default_v4, split_default_v6}
use easy_connection.Routing.Plan.Halves.{
  IsHalf, split_v4-IsHalf, split_v6-IsHalf, InNetwork, in_half_v4, in_half_v6,
}
use easy_connection.Routing.Plan.{
  DefaultRoute, AddedRoute, build_plan, server_route, tun_route, bypass_route, bypass_routes,
}

module _ {A : Type 0} (P : A → Type 0) where
  All-append : (xs ys : List A) → All P xs → All P ys → All P (xs ++ ys)
  All-append [] ys a b = b
  All-append (x ∷ xs) ys a b = (a.0, All-append xs ys a.1 b)

  All-Mem : (xs : List A) → ((x : A) → Memᴰ x xs → P x) → All P xs
  All-Mem [] h = tt
  All-Mem (x ∷ xs) h = (h x (Memᴰ.head refl), All-Mem xs (λ y m. h y (Memᴰ.tail m)))

module _ {A B : Type 0} (P : B → Type 0) (f : A → B) where
  All-map : (xs : List A) → ((x : A) → Memᴰ x xs → P (f x)) → All P (map f xs)
  All-map [] h = tt
  All-map (x ∷ xs) h = (h x (Memᴰ.head refl), All-map xs (λ y m. h y (Memᴰ.tail m)))

All-weaken :
    {A : Type 0} {P Q : A → Type 0} → ((x : A) → P x → Q x) → (xs : List A) → All P xs → All Q xs
All-weaken h [] a = tt
All-weaken h (x ∷ xs) a = (h x a.0, All-weaken h xs a.1)

mem_map : {A B : Type 0} (f : A → B) {x : A} {xs : List A} → Memᴰ x xs → Memᴰ (f x) (map f xs)
mem_map f (Memᴰ.head e) = Memᴰ.head (ap f e)
mem_map f (Memᴰ.tail m) = Memᴰ.tail (mem_map f m)

append_left : {A : Type 0} {x : A} {xs : List A} (ys : List A) → Memᴰ x xs → Memᴰ x (xs ++ ys)
append_left ys (Memᴰ.head e) = Memᴰ.head e
append_left ys (Memᴰ.tail m) = Memᴰ.tail (append_left ys m)

append_right : {A : Type 0} {x : A} (xs : List A) {ys : List A} → Memᴰ x ys → Memᴰ x (xs ++ ys)
append_right [] m = m
append_right (y ∷ xs) m = Memᴰ.tail (append_right xs m)

module _ (show_ip : IpAddr → Str) (show_net : IpNet → Str) (default : DefaultRoute) (tun_name : Str)
    (ipv6 : Bool) where
  -- Into the TUN device, through no gateway.
  abbrev into_tunnel : IpNet → AddedRoute
  into_tunnel net = record { dest = show_net net; via = none; dev = tun_name }

  -- A route around the tunnel leaves by the original device, through the original gateway or, for
  -- an IPv6 network, through none.
  abbrev Around : AddedRoute → Type 0
  Around r = (r.dev ≡ default.dev) × ((r.via ≡ default.gateway) ⊎ (r.via ≡ none))

  bypass_route-Around : (net : IpNet) → All Around (bypass_route show_ip show_net default ipv6 net)
  unfolding bypass_route
  bypass_route-Around net = ground arith

  bypass_routes-Around :
      (nets : List IpNet) → All Around (bypass_routes show_ip show_net default ipv6 nets)
  unfolding bypass_routes bypass_route
  bypass_routes-Around [] = tt
  bypass_routes-Around (net ∷ nets) =
      All-append Around (bypass_route show_ip show_net default ipv6 net) _ (bypass_route-Around net)
        (bypass_routes-Around nets)

  -- A route into the tunnel, for one of the halves of the address space.
  abbrev IntoTunnel : AddedRoute → Type 0
  IntoTunnel r = (net : IpNet) × IsHalf ipv6 net × (r ≡ into_tunnel net)

  module _ (server_ips : List IpAddr) (bypass_private : Bool) (extra_bypass : List IpNet) where
    abbrev pub Planned : AddedRoute → Type 0
    Planned r = Around r ⊎ IntoTunnel r

    abbrev added_routes : List AddedRoute
    added_routes =
        (build_plan show_ip show_net default tun_name server_ips bypass_private extra_bypass
          ipv6).added

    abbrev Tunnelled : IpNet → Type 0
    Tunnelled net = Memᴰ (tun_route show_ip show_net tun_name net) added_routes

    abbrev halves : List IpNet
    halves = split_default_v4 ++ (if ipv6 then split_default_v6 else [])

    plan_parts :
        All (λ ip. Memᴰ (server_route show_ip show_net default ip) added_routes) server_ips
        × All Tunnelled halves
        × All Planned added_routes
    unfolding build_plan
    plan_parts =
        let servers = map (server_route show_ip show_net default) server_ips in
        let bypass =
          if bypass_private
          then bypass_routes show_ip show_net default ipv6 (private_cidrs ++ extra_bypass)
          else [] in
        let tunnel = map (tun_route show_ip show_net tun_name) split_default_v4 in
        let tunnel_v6 =
          if ipv6 then map (tun_route show_ip show_net tun_name) split_default_v6 else [] in
        (
          All-Mem _ server_ips (λ ip m. append_left _ (mem_map _ m)),
          All-append Tunnelled split_default_v4 _
              (All-Mem Tunnelled split_default_v4 (λ net m. append_right servers (
                append_right bypass
                  (append_left tunnel_v6 (mem_map (tun_route show_ip show_net tun_name) m)))))
              (All-Mem Tunnelled (if ipv6 then split_default_v6 else []) (λ net m.
                append_right servers (append_right bypass (append_right tunnel (six ipv6 m))))),
          All-append Planned servers _ (All-map Planned _ server_ips (λ ip m. inl (refl, inl refl)))
              (All-append Planned bypass _ (bypass_all bypass_private) (
                All-append Planned tunnel _
                  (All-map Planned _ split_default_v4
                    (λ net m. inr (net, split_v4-IsHalf ipv6 net m, refl)))
                  (tunnel_v6_all ipv6 refl))),
        )
      where
        bypass_all :
            (b : Bool)
            → All Planned (
                if b
                then bypass_routes show_ip show_net default ipv6 (private_cidrs ++ extra_bypass)
                else [])
        bypass_all true =
            All-weaken {P = Around} {Q = Planned} (λ r a. inl a)
              (bypass_routes show_ip show_net default ipv6 (private_cidrs ++ extra_bypass))
              (bypass_routes-Around (private_cidrs ++ extra_bypass))
        bypass_all false = tt

        tunnel_v6_all :
            (b : Bool)
            → ipv6 ≡ b
            → All Planned
                (if b then map (tun_route show_ip show_net tun_name) split_default_v6 else [])
        tunnel_v6_all true e =
            All-map Planned (tun_route show_ip show_net tun_name) split_default_v6
              (λ net m. inr (net, split_v6-IsHalf ipv6 net e m, refl))
        tunnel_v6_all false e = tt

        six :
            (b : Bool) {net : IpNet}
            → Memᴰ net (if b then split_default_v6 else [])
            → Memᴰ
                (tun_route show_ip show_net tun_name net)
                (if b then map (tun_route show_ip show_net tun_name) split_default_v6 else [])
        six true m = mem_map (tun_route show_ip show_net tun_name) m
        six false m = elim m [ ]

    All-at : (P : IpNet → Type 0) (xs : List IpNet) → All P xs → (x : IpNet) → Memᴰ x xs → P x
    All-at P [] h y m = elim m [ ]
    All-at P (x ∷ xs) (h, hs) y (Memᴰ.head e) = subst P (sym e) h
    All-at P (x ∷ xs) (h, hs) y (Memᴰ.tail m) = All-at P xs hs y m

    into_halves :
        (ip : IpAddr)
        → IsIp ip
        → (is_ipv6 ip ≡ false) ⊎ (ipv6 ≡ true)
        → (net : IpNet) × InNetwork net ip × Memᴰ (into_tunnel net) added_routes
    into_halves (v4 o) (l, b) either =
        let (net, m, inside) = in_half_v4 o l b in
        (net, inside, All-at Tunnelled halves plan_parts.1 net (append_left _ m))
    into_halves (v6 o) (l, b) (inl e) = absurd (cc e)
    into_halves (v6 o) (l, b) (inr e) =
        let (net, m, inside) = in_half_v6 o l b in
        (
          net,
          inside,
          All-at Tunnelled halves plan_parts.1 net (append_right split_default_v4 (rw e m)),
        )

    -- The plan has a route for every address of the server, to the original default device through
    -- the original gateway; every address, IPv6 if that is enabled, is in a network that the plan
    -- routes into the TUN device through no gateway; and every route of the plan leaves by the
    -- original device, or goes into the TUN device for a half of the address space.
    pub build_plan_cover :
        (ip : IpAddr)
        → IsIp ip
        → (is_ipv6 ip ≡ false) ⊎ (ipv6 ≡ true)
        → All
            (λ server.
              Memᴰ
                (record { dest = show_ip server; via = default.gateway; dev = default.dev })
                added_routes)
            server_ips
          × ((net : IpNet) × InNetwork net ip × Memᴰ (into_tunnel net) added_routes)
          × All Planned added_routes
    build_plan_cover ip h either = (plan_parts.0, into_halves ip h either, plan_parts.2)
