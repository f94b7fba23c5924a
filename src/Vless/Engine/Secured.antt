-- ===== src/Vless/Engine/Secured.antt =====
-- The security of the outbound connection, as the two engines are told of it.
use mathlib.Core.Path.{subst}
use easy_connection.Prelude.{
  not, unwrap_or, ◌∙◌, ap, sym, ok_injective, ◌≡◌, ◌⊎◌, inl, inr, refl, true, false, Option, none,
  some, [], ◌∷◌, is_empty, eq_bytes, ok, Bool-cases,
}
use easy_connection.Prelude.Text.{Str, codes}
use easy_connection.Prelude.Json.{
  Value, Members, member, bool, array, strings, object, end, string, find-insert, find-insert_other,
  find, insert, at, as_str, as_bool,
}
use easy_connection.Config.Model.{VlessSettings, ConnectionConfig}
use easy_connection.Vless.Names.{fingerprint}
use easy_connection.Vless.Engine.{
  sing_box_tls, sing_box_tls_settings, add_xray_security, xray_reality_settings, xray_tls_settings,
  server_name, text, add_utls,
}
use easy_connection.Vless.Engine.Outbound.{or_value, kind_of, unless_reality, said}

said_empty : (s : Str) → is_empty s ≡ true → said (some s) ≡ none
said_empty [] e = refl
said_empty (c ∷ s) e = absurd (cc e)

module _ (cfg : ConnectionConfig) (v : VlessSettings) (base out stream : Members) where
  abbrev pub Same : Members → Type 0
  Same final =
      let tls = find (codes "tls") out in
      let reality = at (codes "reality") tls in
      let tls' = find (codes "tlsSettings") final in
      let reality' = find (codes "realitySettings") final in
      (as_str (find (codes "security") final) ≡ kind_of tls reality)
      × (as_str (at (codes "serverName") (or_value tls' reality'))
          ≡ as_str (at (codes "server_name") tls))
      × (as_bool (at (codes "allowInsecure") tls')
          ≡ unless_reality reality (as_bool (at (codes "insecure") tls)))
      × (as_str (at (codes "password") reality') ≡ as_str (at (codes "public_key") reality))
      × (as_str (at (codes "shortId") reality') ≡ as_str (at (codes "short_id") reality))
      × (at (codes "alpn") tls' ≡ unless_reality reality (at (codes "alpn") tls))
      × (said (as_str (at (codes "fingerprint") (or_value tls' reality')))
          ≡ said (as_str (at (codes "fingerprint") (at (codes "utls") tls))))

  abbrev pub Kept : Members → Type 0
  Kept final =
      (j : Str)
      → eq_bytes (codes "tlsSettings") j ≡ false
      → eq_bytes (codes "realitySettings") j ≡ false
      → find j final ≡ find j stream

  -- Xray can be told of a security that sing-box was told of.
  abbrev pub Secures : Str → Type 0
  Secures security =
      find (codes "security") stream ≡ some (string security)
      → sing_box_tls cfg v security base ≡ ok out
      → (final : Members) × (add_xray_security cfg v security stream ≡ ok final)
        × Same final
        × Kept final

  module _ (no_tls : find (codes "tls") base ≡ none)
      (no_settings : find (codes "tlsSettings") stream ≡ none)
      (no_reality : find (codes "realitySettings") stream ≡ none) where
    with_none : Secures (codes "none")
    unfolding eq_bytes
    with_none s e =
        let plain : find (codes "tls") out ≡ none =
          ap (find (codes "tls")) (sym (ok_injective base out e)) ∙ no_tls in
        (
          stream,
          refl,
          simp (plain, s, no_settings, no_reality) (refl, refl, refl, refl, refl, refl, refl),
          λ j a b. refl,
        )

    sent :
        (security : Str) (t : Value)
        → sing_box_tls cfg v security base ≡ ok out
        → sing_box_tls cfg v security base ≡ ok (insert (codes "tls") t base)
        → find (codes "tls") out ≡ some t
    sent security t e f =
        ap (find (codes "tls")) (sym (ok_injective (insert (codes "tls") t base) out (sym f ∙ e)))
        ∙ find-insert (codes "tls") t base

    with_tls : Secures (codes "tls")
    unfolding eq_bytes sing_box_tls_settings xray_tls_settings find
    with_tls s e =
        let settings = xray_tls_settings cfg in
        let final = insert (codes "tlsSettings") settings stream in
        let there = find-insert (codes "tlsSettings") settings stream in
        let none' =
          find-insert_other (codes "tlsSettings") (codes "realitySettings") settings stream refl
          ∙ no_reality in
        let named =
          find-insert_other (codes "tlsSettings") (codes "security") settings stream refl ∙ s in
        (
          final,
          refl,
          elim (Bool-cases (is_empty (fingerprint cfg.tls.fingerprint))) [
            | inl f ↦
                let plain = sent (codes "tls") _ e refl in
                simp (plain, f, there, none', named)
                  (
                    refl,
                    refl,
                    refl,
                    refl,
                    refl,
                    refl,
                    said_empty (fingerprint cfg.tls.fingerprint) f,
                  )
            | inr f ↦
                let plain = sent (codes "tls") _ e refl in
                simp (plain, f, there, none', named) (refl, refl, refl, refl, refl, refl, refl)
          ],
          λ j a b. find-insert_other (codes "tlsSettings") j settings stream a,
        )

    -- What sing-box has under `tls` for Reality.
    abbrev reality_tls : Str → Members
    reality_tls key =
        insert (codes "reality")
          (object (
            member (codes "enabled") (bool true)
              (text "public_key" key (text "short_id" (unwrap_or v.reality_short_id []) end))))
          (add_utls (fingerprint cfg.tls.fingerprint) (
            member (codes "enabled") (bool true) (
              text "server_name" (server_name cfg) (
                member (codes "insecure") (bool (not cfg.tls.verify))
                  (member (codes "alpn") (array (strings cfg.tls.alpn)) end)))))

    abbrev reality_settings : Str → Value
    reality_settings key = object (
        text "serverName" (server_name cfg) (
          text "fingerprint" (fingerprint cfg.tls.fingerprint) (
            text "password" key (
              text "shortId" (unwrap_or v.reality_short_id [])
                (text "spiderX" (unwrap_or v.spider_x (codes "/")) end)))))

    with_reality : (o : Option Str) → v.reality_public_key ≡ o → Secures (codes "reality")
    unfolding eq_bytes sing_box_tls_settings xray_reality_settings find
    with_reality none k s e = absurd (cc (rw k at e))
    with_reality (some key) k s e =
        let settings = reality_settings key in
        let final = insert (codes "realitySettings") settings stream in
        let there = find-insert (codes "realitySettings") settings stream in
        let none' =
          find-insert_other (codes "realitySettings") (codes "tlsSettings") settings stream refl
          ∙ no_settings in
        let named =
          find-insert_other (codes "realitySettings") (codes "security") settings stream refl ∙ s in
        let plain = sent (codes "reality") (object (reality_tls key)) e (simp k refl) in
        (
          final,
          simp k refl,
          elim (Bool-cases (is_empty (fingerprint cfg.tls.fingerprint))) [
            | inl f ↦
                simp (plain, f, there, none', named)
                  (
                    refl,
                    refl,
                    refl,
                    refl,
                    refl,
                    refl,
                    said_empty (fingerprint cfg.tls.fingerprint) f,
                  )
            | inr f ↦
                simp (plain, f, there, none', named) (refl, refl, refl, refl, refl, refl, refl)
          ],
          λ j a b. find-insert_other (codes "realitySettings") j settings stream b,
        )

    -- For each of the three securities.
    pub with_known :
        (security : Str)
        → (security ≡ codes "none") ⊎ ((security ≡ codes "tls") ⊎ (security ≡ codes "reality"))
        → Secures security
    with_known security (inl e) = subst Secures (sym e) with_none
    with_known security (inr (inl e)) = subst Secures (sym e) with_tls
    with_known security (inr (inr e)) =
        subst Secures (sym e) (with_reality v.reality_public_key refl)
