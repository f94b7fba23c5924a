-- ===== src/Vless/Engine/Agree.antt =====
-- The two engines are told the same.
use easy_connection.Prelude.{
  ◌∙◌, ap, sym, ok_injective, bind-ok, then-ok, ℕ, ◌≡◌, ◌⊎◌, inl, inr, refl, false, none, some, [],
  is_empty, if◌then◌else◌, eq_bytes, ok, Bool-cases,
}
use easy_connection.Prelude.Text.{eq_ignore_ascii_case, Str, codes}
use easy_connection.Prelude.Json.{
  Value, Members, end, find-insert_other, find, insert, at, as_str, as_bool, as_number,
}
use easy_connection.Config.Model.{VlessSettings, ConnectionConfig}
use easy_connection.Vless.Names.{settings_of, effective_network, effective_security, xray_network}
use easy_connection.Vless.Engine.{
  xray_of, sing_box_of, build_xray_config, build_sing_box_config, sets_flow, sing_box_over,
  sing_box_tls, sing_box_transport, sing_box_tls_settings, add_xray_transport, xray_settings,
  sing_box_base, xray_value, sing_box_value, text,
}
use easy_connection.Vless.Engine.Outbound.{
  or_value, plain_network, read_xray, or_tcp, kind_of, unless_reality, said, host_in, read_sing_box,
}
use easy_connection.Vless.Engine.Carried.{Carried, over_any}
use easy_connection.Vless.Engine.Secured.{Same, Kept, with_known}

-- What Xray is told of the encryption.
abbrev pub plain_text : VlessSettings → Str
plain_text v = if is_empty v.encryption then codes "none" else v.encryption

-- The securities of a profile that the check of profiles accepts.
abbrev pub IsKnown : Str → Type 0
IsKnown security =
    (security ≡ codes "none") ⊎ ((security ≡ codes "tls") ⊎ (security ≡ codes "reality"))

none_written :
    (v : VlessSettings)
    → (v.encryption ≡ []) ⊎ (v.encryption ≡ codes "none")
    → plain_text v ≡ codes "none"
none_written v (inl e) = rw e refl
none_written v (inr e) = rw e refl

module _ (cfg : ConnectionConfig) (v : VlessSettings) where
  -- The transport changes nothing else of the outbound connection.
  over_find :
      (network : Str) (ms out : Members) (j : Str)
      → sing_box_over network v ms ≡ ok out
      → eq_bytes (codes "transport") j ≡ false
      → find j out ≡ find j ms
  over_find network ms out j e n = elim (Bool-cases (eq_bytes network (codes "tcp"))) [
    | inl t ↦ ap (find j) (sym (ok_injective ms out (rw t at e)))
    | inr t ↦
        let b = bind-ok (sing_box_transport network v) _ out (rw t at e) in
        ap (find j) (sym (ok_injective (insert (codes "transport") b.0 ms) out b.2))
        ∙ find-insert_other (codes "transport") j b.0 ms n
  ]

  tls_find :
      (security : Str) (ms out : Members) (j : Str)
      → sing_box_tls cfg v security ms ≡ ok out
      → eq_bytes (codes "tls") j ≡ false
      → find j out ≡ find j ms
  tls_find security ms out j e n = elim (Bool-cases (eq_bytes security (codes "none"))) [
    | inl t ↦ ap (find j) (sym (ok_injective ms out (rw t at e)))
    | inr t ↦
        let b = bind-ok (sing_box_tls_settings cfg v security) _ out (rw t at e) in
        ap (find j) (sym (ok_injective (insert (codes "tls") b.0 ms) out b.2))
        ∙ find-insert_other (codes "tls") j b.0 ms n
  ]

  -- What the records say of the server.
  Served : Members → Members → Type 0
  Served settings out =
      (as_str (find (codes "address") settings) ≡ as_str (find (codes "server") out))
      × (as_number (find (codes "port") settings) ≡ as_number (find (codes "server_port") out))
      × (as_str (find (codes "id") settings) ≡ as_str (find (codes "uuid") out))
      × (as_str (find (codes "flow") settings) ≡ as_str (find (codes "flow") out))
      × (as_str (find (codes "encryption") settings) ≡ some (codes "none"))

  base_Served : plain_text v ≡ codes "none" → Served (xray_settings cfg v) (sing_box_base cfg v)
  unfolding Served find insert eq_bytes
  base_Served p = elim (Bool-cases (sets_flow v.flow)) [
    | inl f ↦ simp f (refl, refl, refl, refl, ap (λ s. some s) p)
    | inr f ↦ simp f (refl, refl, refl, refl, ap (λ s. some s) p)
  ]

  base_bare :
      (find (codes "tls") (sing_box_base cfg v) ≡ none)
      × (find (codes "transport") (sing_box_base cfg v) ≡ none)
  unfolding find insert eq_bytes
  base_bare = elim (Bool-cases (sets_flow v.flow)) [
    | inl f ↦ simp f (refl, refl)
    | inr f ↦ simp f (refl, refl)
  ]

  -- A field of the outbound connection that neither the security nor the transport changes.
  kept :
      (network security : Str) (secured out : Members) (j : Str)
      → sing_box_tls cfg v security (sing_box_base cfg v) ≡ ok secured
      → sing_box_over network v secured ≡ ok out
      → eq_bytes (codes "tls") j ≡ false
      → eq_bytes (codes "transport") j ≡ false
      → find j out ≡ find j (sing_box_base cfg v)
  kept network security secured out j e f a b =
      over_find network secured out j f b ∙ tls_find security (sing_box_base cfg v) secured j e a

  -- The parts of the record, put together.
  alike :
      (port : ℕ) (secured out stream final : Members)
      → Served (xray_settings cfg v) out
      → find (codes "tls") out ≡ find (codes "tls") secured
      → (plain_network (as_str (find (codes "method") final))
          ≡ or_tcp (as_str (at (codes "type") (find (codes "transport") out))))
      → (as_str (
            at (codes "path") (
              or_value
                (find (codes "wsSettings") final)
                (find (codes "httpupgradeSettings") final)))
          ≡ as_str (at (codes "path") (find (codes "transport") out)))
      → (as_str (at (codes "serviceName") (find (codes "grpcSettings") final))
          ≡ as_str (at (codes "service_name") (find (codes "transport") out)))
      → (said (
            as_str (
              at (codes "host") (
                or_value
                  (find (codes "wsSettings") final)
                  (find (codes "httpupgradeSettings") final))))
          ≡ host_in (find (codes "transport") out))
      → Same cfg v (sing_box_base cfg v) secured stream final
      → read_xray (xray_value cfg port v final) ≡ read_sing_box (sing_box_value port out)
  unfolding find eq_bytes Served
  alike port secured out stream final s tls n p g w m =
      let secured_tls = sym tls in
      let kind = m.0 ∙ ap (λ w. kind_of w (at (codes "reality") w)) secured_tls in
      let sni = m.1 ∙ ap (λ w. as_str (at (codes "server_name") w)) secured_tls in
      let check =
        m.2
        ∙ ap (λ w. unless_reality (at (codes "reality") w) (as_bool (at (codes "insecure") w)))
            secured_tls in
      let key =
        m.3 ∙ ap (λ w. as_str (at (codes "public_key") (at (codes "reality") w))) secured_tls in
      let id =
        m.4 ∙ ap (λ w. as_str (at (codes "short_id") (at (codes "reality") w))) secured_tls in
      let names =
        m.5 ∙ ap (λ w. unless_reality (at (codes "reality") w) (at (codes "alpn") w)) secured_tls in
      let hello =
        m.6
        ∙ ap (λ w. said (as_str (at (codes "fingerprint") (at (codes "utls") w)))) secured_tls in
      λ i. record {
        server = s.0 i;
        port = s.1 i;
        uuid = s.2 i;
        flow = s.3 i;
        network = n i;
        path = p i;
        service = g i;
        security = kind i;
        sni = sni i;
        insecure = check i;
        public_key = key i;
        short_id = id i;
        encryption = s.4 i;
        host = w i;
        alpn = names i;
        fingerprint = hello i;
      }

  -- The transport that Xray was told of is not changed by its security.
  carried :
      (security network : Str) (secured out final : Members)
      → Carried v security secured out network
      → Kept cfg v
          (sing_box_base cfg v)
          secured
          (add_xray_transport
            (text "method" (xray_network network) (text "security" security end))
            network
            v)
          final
      → (plain_network (as_str (find (codes "method") final))
          ≡ or_tcp (as_str (at (codes "type") (find (codes "transport") out))))
        × (as_str (
              at (codes "path") (
                or_value
                  (find (codes "wsSettings") final)
                  (find (codes "httpupgradeSettings") final)))
            ≡ as_str (at (codes "path") (find (codes "transport") out)))
        × (as_str (at (codes "serviceName") (find (codes "grpcSettings") final))
            ≡ as_str (at (codes "service_name") (find (codes "transport") out)))
        × (said (
              as_str (
                at (codes "host") (
                  or_value
                    (find (codes "wsSettings") final)
                    (find (codes "httpupgradeSettings") final))))
            ≡ host_in (find (codes "transport") out))
  unfolding eq_bytes
  carried security network secured out final t k =
      let stream =
        add_xray_transport (text "method" (xray_network network) (text "security" security end))
          network v in
      let over =
        ap (λ w. or_value w (find (codes "httpupgradeSettings") final))
          (k (codes "wsSettings") refl refl)
        ∙ ap (or_value (find (codes "wsSettings") stream))
            (k (codes "httpupgradeSettings") refl refl) in
      (
        ap (λ w. plain_network (as_str w)) (k (codes "method") refl refl) ∙ t.0,
        ap (λ w. as_str (at (codes "path") w)) over ∙ t.1,
        ap (λ w. as_str (at (codes "serviceName") w)) (k (codes "grpcSettings") refl refl) ∙ t.2,
        ap (λ w. said (as_str (at (codes "host") w))) over ∙ t.6,
      )

  served :
      (network security : Str) (secured out : Members)
      → sing_box_tls cfg v security (sing_box_base cfg v) ≡ ok secured
      → sing_box_over network v secured ≡ ok out
      → plain_text v ≡ codes "none"
      → Served (xray_settings cfg v) out
  unfolding Served eq_bytes
  served network security secured out e f p =
      let keep : (j : Str)
          → eq_bytes (codes "tls") j ≡ false
          → eq_bytes (codes "transport") j ≡ false
          → find j (sing_box_base cfg v) ≡ find j out =
        λ j a b. sym (kept network security secured out j e f a b) in
      (
        (base_Served p).0 ∙ ap as_str (keep (codes "server") refl refl),
        (base_Served p).1 ∙ ap as_number (keep (codes "server_port") refl refl),
        (base_Served p).2 ∙ ap as_str (keep (codes "uuid") refl refl),
        (base_Served p).3 ∙ ap as_str (keep (codes "flow") refl refl),
        (base_Served p).4,
      )

  agree :
      (port : ℕ) (network security : Str) (s : Value)
      → IsKnown security
      → plain_text v ≡ codes "none"
      → sing_box_of cfg port v network security ≡ ok s
      → (x : Value) × (xray_of cfg port v network security ≡ ok x) × (read_xray x ≡ read_sing_box s)
  unfolding sing_box_of xray_of eq_bytes
  agree port network security s known p e =
      let a = then-ok (eq_bytes network (codes "xhttp")) _ _ s e in
      let b = then-ok (eq_ignore_ascii_case v.flow (codes "xtls-rprx-vision-udp443")) _ _ s a.1 in
      let c = bind-ok (sing_box_tls cfg v security (sing_box_base cfg v)) _ s b.1 in
      let d = bind-ok (sing_box_over network v c.0) _ s c.2 in
      let t =
        over_any v security c.0 d.0
          (tls_find security (sing_box_base cfg v) c.0 (codes "transport") c.1 refl ∙ base_bare.1)
          network d.1 in
      let stream =
        add_xray_transport (text "method" (xray_network network) (text "security" security end))
          network v in
      let u =
        with_known cfg v (sing_box_base cfg v) c.0 stream base_bare.0 t.4 t.5 security known t.3
          c.1 in
      let same = carried security network c.0 d.0 u.0 t u.3 in
      (
        xray_value cfg port v u.0,
        rw u.1,
        alike port c.0 d.0 stream u.0 (served network security c.0 d.0 c.1 d.1 p)
              (over_find network c.0 d.0 (codes "tls") d.1 refl) same.0 same.1 same.2 same.3 u.2
            ∙ ap read_sing_box (ok_injective (sing_box_value port d.0) s d.2),
      )

-- Where sing-box can be configured for a profile without VLESS encryption whose security is none,
-- TLS or Reality, Xray can be configured too, and both read the same outbound connection: the server,
-- its port, the id and the flow, the network with its path, its Host header or its service, the
-- security with the name, the fingerprint and the key that it checks, whether it checks the
-- certificate, and with TLS the protocols of ALPN. An empty Host or fingerprint counts as none.
pub engines_agree :
    (cfg : ConnectionConfig) (port : ℕ) (v : VlessSettings) (s : Value)
    → settings_of cfg ≡ ok v
    → IsKnown (effective_security cfg v.security)
    → (v.encryption ≡ []) ⊎ (v.encryption ≡ codes "none")
    → build_sing_box_config cfg port ≡ ok s
    → (x : Value) × (build_xray_config cfg port ≡ ok x) × (read_xray x ≡ read_sing_box s)
unfolding build_sing_box_config build_xray_config
engines_agree cfg port v s e known plain f =
    let r =
      agree cfg v port (effective_network cfg v.network) (effective_security cfg v.security) s known
        (none_written v plain) (rw e at f) in
    (r.0, rw e r.1, r.2)
