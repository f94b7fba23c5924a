-- ===== src/Vless/Engine/Carried.antt =====
-- The transport of the outbound connection, as the two engines are told of it.
use mathlib.Core.Path.{subst}
use easy_connection.Prelude.{
  ◌∙◌, ap, sym, ok_injective, ◌≡◌, ◌≢◌, inl, inr, refl, arith, true, false, Option, none, some, [],
  unwrap_or, eq_bytes, eq_bytes_iff, ok, Bool-cases,
}
use easy_connection.Prelude.Text.{Str, codes}
use easy_connection.Prelude.Json.{
  Value, Members, object, find-insert, find, end, string, insert, at, as_str,
}
use easy_connection.Config.Model.{VlessSettings}
use easy_connection.Vless.Names.{xray_network}
use easy_connection.Vless.Engine.{
  sing_box_over, sing_box_transport, add_xray_transport, with_host, path_of, text,
}
use easy_connection.Vless.Engine.Outbound.{or_value, plain_network, or_tcp, said, host_in}

module _ (v : VlessSettings) (security : Str) (ms out : Members) where
  -- What the two engines are told of the network.
  abbrev pub Carried : Str → Type 0
  Carried network =
      let stream =
        add_xray_transport (text "method" (xray_network network) (text "security" security end))
          network v in
      let over = find (codes "transport") out in
      let path =
        or_value (find (codes "wsSettings") stream) (find (codes "httpupgradeSettings") stream) in
      (plain_network (as_str (find (codes "method") stream))
        ≡ or_tcp (as_str (at (codes "type") over)))
      × (as_str (at (codes "path") path) ≡ as_str (at (codes "path") over))
      × (as_str (at (codes "serviceName") (find (codes "grpcSettings") stream))
          ≡ as_str (at (codes "service_name") over))
      × (find (codes "security") stream ≡ some (string security))
      × (find (codes "tlsSettings") stream ≡ none)
      × (find (codes "realitySettings") stream ≡ none)
      × (said (as_str (at (codes "host") path)) ≡ host_in over)

  abbrev pub Tells : Str → Type 0
  Tells network = sing_box_over network v ms ≡ ok out → Carried network

  found :
      (network : Str) (t : Value)
      → sing_box_over network v ms ≡ ok out
      → (sing_box_over network v ms ≡ ok (insert (codes "transport") t ms))
      → find (codes "transport") out ≡ some t
  found network t e f =
      ap (find (codes "transport"))
        (sym (ok_injective (insert (codes "transport") t ms) out (sym f ∙ e)))
      ∙ find-insert (codes "transport") t ms

  over_tcp : find (codes "transport") ms ≡ none → Tells (codes "tcp")
  unfolding add_xray_transport xray_network find eq_bytes
  over_tcp n e =
      let same : find (codes "transport") out ≡ none =
        ap (find (codes "transport")) (sym (ok_injective ms out e)) ∙ n in
      simp same (refl, refl, refl, refl, refl, refl, refl)

  over_grpc : Tells (codes "grpc")
  unfolding add_xray_transport xray_network find eq_bytes sing_box_transport
  over_grpc e = simp (found (codes "grpc") _ e refl) (refl, refl, refl, refl, refl, refl, refl)

  over_ws : Tells (codes "ws")
  unfolding add_xray_transport xray_network find eq_bytes sing_box_transport
  over_ws e =
      let g = go v.host in simp (found (codes "ws") _ e refl) (g.0, g.1, g.2, refl, refl, refl, g.3)
    where
      go :
          (h : Option Str)
          → let over =
              some
                (object (with_host h (text "type" (codes "ws") (text "path" (path_of v) end)))) in
            (some (codes "ws") ≡ or_tcp (as_str (at (codes "type") over)))
            × (some (path_of v) ≡ as_str (at (codes "path") over))
            × (as_str none ≡ as_str (at (codes "service_name") over))
            × (said (some (unwrap_or h [])) ≡ host_in over)
      go none = (refl, refl, refl, refl)
      go (some h) = (refl, refl, refl, refl)

  over_upgrade : Tells (codes "httpupgrade")
  unfolding add_xray_transport xray_network find eq_bytes sing_box_transport
  over_upgrade e =
      simp (found (codes "httpupgrade") _ e refl) (refl, refl, refl, refl, refl, refl, refl)

  unsupported :
      (network : Str)
      → eq_bytes network (codes "tcp") ≡ false
      → eq_bytes network (codes "ws") ≡ false
      → eq_bytes network (codes "grpc") ≡ false
      → eq_bytes network (codes "httpupgrade") ≡ false
      → sing_box_over network v ms ≢ ok out
  unfolding sing_box_transport
  unsupported network a b c d e = ground (arith, e, a, b, c, d)

  pub over_any : find (codes "transport") ms ≡ none → (network : Str) → Tells network
  over_any n network = elim (Bool-cases (eq_bytes network (codes "tcp"))) [
    | inl t ↦ at_name (codes "tcp") t (over_tcp n)
    | inr a ↦ elim (Bool-cases (eq_bytes network (codes "ws"))) [
      | inl t ↦ at_name (codes "ws") t over_ws
      | inr b ↦ elim (Bool-cases (eq_bytes network (codes "grpc"))) [
        | inl t ↦ at_name (codes "grpc") t over_grpc
        | inr c ↦ elim (Bool-cases (eq_bytes network (codes "httpupgrade"))) [
          | inl t ↦ at_name (codes "httpupgrade") t over_upgrade
          | inr d ↦ λ e. absurd (unsupported network a b c d e)
        ]
      ]
    ]
  ]
    where
      at_name : (name : Str) → eq_bytes network name ≡ true → Tells name → Tells network
      at_name name t h = subst Tells (sym ((eq_bytes_iff network name).0 t)) h
