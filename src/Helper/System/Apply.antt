-- ===== src/Helper/System/Apply.antt =====
-- What `apply_spec` leaves behind, on success and on each error.
use easy_connection.Prelude.{
  ◌≡◌, ◌∙◌, refl, arith, true, false, none, some, [], ◌∷◌, Result, ok, err, inl, inr, Option-cases,
  Bool-cases, Result-cases,
}
use easy_connection.Prelude.Net.{IpAddr, IpNet}
use easy_connection.Prelude.Text.{Str}
use easy_connection.Dns.Policy.{effective_policy, parse, should_configure_resolved}
use mathlib.Core.Path.{subst, ap}
use easy_connection.Helper.Spec.{SpecError, ApplySpec, validate, IsValid}
use easy_connection.Helper.Spec.Valid.{validate_iff}
use easy_connection.Helper.System.{
  System, Answers, configure_tun, apply_table, flush_table, delete_link, configure_resolved,
  configure_dns, write_journal, cleanup_stale, ApplyError, invalid, already_active, no_tun,
  no_config, no_table, no_journal, is_active, script_of, finish_apply, set_up, apply_spec,
}
use easy_connection.Helper.System.Restore.{Works, cleanup_stale-active, cleanup_stale-clean}

-- No trace of a tunnel.
pub record IsClean (t : System) : Type 0 where
  pub no_device : t.tun ≡ false
  pub no_rules : t.table ≡ []
  pub no_servers : t.resolved ≡ none
  pub no_file : t.journal ≡ none
  pub no_session : t.active ≡ none

-- A tunnel that is up with one script.
pub record IsUp (script : Str) (t : System) : Type 0 where
  pub device : t.tun ≡ true
  pub rules : t.table ≡ script ∷ []
  pub file : t.journal ≡ some []
  pub session : t.active ≡ some []

-- A script that is loaded with no device and no session.
pub record IsStranded (script : Str) (t : System) : Type 0 where
  pub lost_device : t.tun ≡ false
  pub left_rules : t.table ≡ script ∷ []
  pub lost_session : t.active ≡ none

pub IsClean-cleanup_stale :
    (a : Answers) (s : System) → Works a → s.active ≡ none → IsClean (cleanup_stale a s)
IsClean-cleanup_stale a s w e =
    let c = cleanup_stale-clean a s w in
    record {
      no_device = c.0;
      no_rules = c.1;
      no_servers = c.2;
      no_file = c.3;
      no_session = cleanup_stale-active a s ∙ e;
    }

pub configure_dns-keeps :
    (a : Answers) (spec : ApplySpec) (s : System)
    → let t = configure_dns a spec s in
      (t.tun ≡ s.tun) × (t.table ≡ s.table) × (t.active ≡ s.active)
unfolding configure_dns configure_resolved
configure_dns-keeps a spec s =
    elim (Bool-cases (should_configure_resolved (effective_policy true (parse spec.dns_mode)))) [
      | inl e ↦ rw e (elim (Bool-cases a.resolvectl_works) [
        | inl f ↦ rw f (refl, refl, refl)
        | inr f ↦ rw f (refl, refl, refl)
      ])
      | inr e ↦ rw e (refl, refl, refl)
    ]

module _ (show_ip : IpAddr → Str) (show_net : IpNet → Str) (spec : ApplySpec) where
  -- The state that an answer of `apply_spec` in the state `s` comes with.
  abbrev pub Outcome : System → Result (Unit {0}) ApplyError × System → Type 0
  Outcome s (ok _, t) = IsValid spec × (s.active ≡ none) × IsUp (script_of show_ip show_net spec) t
  Outcome s (err invalid, t) = t ≡ s
  Outcome s (err already_active, t) = t ≡ s
  Outcome s (err no_tun, t) = IsClean t
  Outcome s (err no_config, t) = IsClean t
  Outcome s (err no_table, t) = IsClean t
  Outcome s (err no_journal, t) = IsStranded (script_of show_ip show_net spec) t

  module _ (a : Answers) (s : System) (v : IsValid spec) (e : s.active ≡ none) where
    finish_apply-Outcome :
        (t : System)
        → t.tun ≡ true
        → t.table ≡ script_of show_ip show_net spec ∷ []
        → t.active ≡ none
        → Outcome s (finish_apply show_ip show_net a spec t)
    unfolding finish_apply write_journal
    finish_apply-Outcome t d r n =
        let k = configure_dns-keeps a spec t in
        elim (Bool-cases a.journal_writes) [
          | inl f ↦
              simp f
                (v, e, record { device = k.0 ∙ d; rules = k.1 ∙ r; file = refl; session = refl })
          | inr f ↦
              simp f (record { lost_device = refl; left_rules = k.1 ∙ r; lost_session = k.2 ∙ n })
        ]

    set_up-Outcome :
        (t : System) → Works a → IsClean t → Outcome s (set_up show_ip show_net a spec t)
    unfolding set_up apply_table flush_table delete_link
    set_up-Outcome t w c =
        simp (w.runs, w.deletes, w.unlinks)
          (elim (Bool-cases a.tun_created) [
            | inl f ↦ simp f (elim (Bool-cases (configure_tun a spec)) [
              | inl g ↦ simp g (elim (Bool-cases a.nft_loads) [
                | inl h ↦ simp h (
                    finish_apply-Outcome
                      (record t { tun = true; table = script_of show_ip show_net spec ∷ [] }) refl
                      refl c.no_session)
                | inr h ↦ simp h (record {
                  no_device = refl;
                  no_rules = refl;
                  no_servers = c.no_servers;
                  no_file = c.no_file;
                  no_session = c.no_session;
                })
              ])
              | inr g ↦ simp g (record {
                no_device = refl;
                no_rules = c.no_rules;
                no_servers = c.no_servers;
                no_file = c.no_file;
                no_session = c.no_session;
              })
            ])
            | inr f ↦ simp f c
          ])

  apply_spec-refused :
      (a : Answers) (s : System) (e : SpecError)
      → validate spec ≡ err e
      → (err invalid, s) ≡ apply_spec show_ip show_net a spec s
  unfolding apply_spec
  apply_spec-refused a s e h = rw (h, apply_spec) refl

  apply_spec-busy :
      (a : Answers) (s : System)
      → validate spec ≡ ok tt
      → is_active s.active ≡ true
      → (err already_active, s) ≡ apply_spec show_ip show_net a spec s
  unfolding apply_spec
  apply_spec-busy a s h b = rw (h, b, apply_spec) refl

  apply_spec-set_up :
      (a : Answers) (s : System)
      → validate spec ≡ ok tt
      → is_active s.active ≡ false
      → set_up show_ip show_net a spec (cleanup_stale a s) ≡ apply_spec show_ip show_net a spec s
  unfolding apply_spec
  apply_spec-set_up a s h b = rw (h, b, apply_spec) refl

  -- Where every command of a teardown does its work: a success means that the specification is
  -- valid and that no session was active, and it leaves the device, exactly the script of this
  -- specification, the journal file and the session; a refusal changes nothing; an error in the
  -- device or in the table leaves no trace; and an error of the journal file leaves the script
  -- loaded with no device and no session.
  pub apply_spec-Outcome :
      (a : Answers) (s : System) → Works a → Outcome s (apply_spec show_ip show_net a spec s)
  apply_spec-Outcome a s w = elim (Result-cases (validate spec)) [
    | inr q ↦ subst (Outcome s) (apply_spec-refused a s q.0 q.1) refl
    | inl q ↦ elim (Option-cases s.active) [
      | inr x ↦ subst (Outcome s) (apply_spec-busy a s q.1 (ap is_active x.1)) refl
      | inl e ↦ subst (Outcome s) (apply_spec-set_up a s q.1 (ap is_active e)) (
          set_up-Outcome a s ((validate_iff spec).0 q.1) e (cleanup_stale a s) w
            (IsClean-cleanup_stale a s w e))
    ]
  ]

  -- An error of `apply_spec` does not touch the session.
  abbrev pub KeepsActive : System → Result (Unit {0}) ApplyError × System → Type 0
  KeepsActive s (ok _, t) = Unit {0}
  KeepsActive s (err _, t) = t.active ≡ s.active

  finish_apply-KeepsActive :
      (a : Answers) (s t : System)
      → t.active ≡ s.active
      → KeepsActive s (finish_apply show_ip show_net a spec t)
  unfolding finish_apply write_journal
  finish_apply-KeepsActive a s t e = elim (Bool-cases a.journal_writes) [
    | inl f ↦ simp f tt
    | inr f ↦ simp f ((configure_dns-keeps a spec t).2 ∙ e)
  ]

  apply_table-active :
      (a : Answers) (text : Str) (s : System) → (apply_table a text s).1.active ≡ s.active
  unfolding apply_table flush_table
  apply_table-active a text s = ground arith

  set_up-KeepsActive :
      (a : Answers) (s t : System)
      → t.active ≡ s.active
      → KeepsActive s (set_up show_ip show_net a spec t)
  unfolding set_up delete_link
  set_up-KeepsActive a s t e =
      let loaded = apply_table a (script_of show_ip show_net spec) (record t { tun = true }) in
      let same =
        apply_table-active a (script_of show_ip show_net spec) (record t { tun = true }) ∙ e in
      elim (Bool-cases a.tun_created) [
        | inl f ↦ simp f (elim (Bool-cases (configure_tun a spec)) [
          | inl g ↦ simp g (elim (Bool-cases loaded.0) [
            | inl h ↦ simp h (finish_apply-KeepsActive a s loaded.1 same)
            | inr h ↦
                simp h
                  (elim (Bool-cases a.link_deletes) [ inl l ↦ simp l same | inr l ↦ simp l same ])
          ])
          | inr g ↦
              simp g (elim (Bool-cases a.link_deletes) [ inl l ↦ simp l e | inr l ↦ simp l e ])
        ])
        | inr f ↦ simp f e
      ]

  pub apply_spec-KeepsActive :
      (a : Answers) (s : System) → KeepsActive s (apply_spec show_ip show_net a spec s)
  apply_spec-KeepsActive a s = elim (Result-cases (validate spec)) [
    | inr q ↦ subst (KeepsActive s) (apply_spec-refused a s q.0 q.1) refl
    | inl q ↦ elim (Bool-cases (is_active s.active)) [
      | inl b ↦ subst (KeepsActive s) (apply_spec-busy a s q.1 b) refl
      | inr b ↦
          subst (KeepsActive s) (apply_spec-set_up a s q.1 b)
            (set_up-KeepsActive a s (cleanup_stale a s) (cleanup_stale-active a s))
    ]
  ]
