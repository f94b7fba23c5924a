-- ===== src/Helper/System.antt =====
-- services/privileged-helper/src/main.rs: what the helper changes in the system. What the commands
-- `ip`, `nft` and `resolvectl` and the file system answer is the record `Answers`, an argument of
-- every operation; the effect of a command is the documented one.
pub mod Apply
pub mod Restore
use easy_connection.Prelude.{
  ℕ, Bool, true, false, not, ◌&&◌, ◌||◌, Option, none, some, List, [], ◌∷◌, ◌++◌, if◌then◌else◌,
  Result, ok, err, is_empty,
}
use easy_connection.Prelude.Net.{IpAddr, IpNet}
use easy_connection.Prelude.Text.{Str}
use easy_connection.Nft.{render_table}
use easy_connection.Routing.Cidrs.{private_cidrs}
use easy_connection.Routing.Plan.{AddedRoute}
use easy_connection.Routing.Journal.{Table, AddOutcome, failed, restore_added}
use easy_connection.Dns.Policy.{
  effective_policy, parse, resolve_servers, should_configure_resolved, default_dns_servers,
}
use easy_connection.Helper.Spec.{ApplySpec, validate}

-- `easy0`, the scripts loaded into `table inet easy` since it was last deleted, the servers that
-- systemd-resolved has for the device, the journal file, the routes of the kernel, and the session
-- in the mutex.
pub record System : Type 0 where
  pub tun : Bool
  pub table : List Str
  pub resolved : Option (List Str)
  pub journal : Option (List AddedRoute)
  pub routes : Table
  pub active : Option (List AddedRoute)

pub record Answers : Type 0 where
  pub tun_created : Bool  -- `create_named_tun`
  pub mtu_set : Bool  -- the four calls of `ip` in `configure_tun`, an address that
  pub addr_added : Bool  -- exists already counting as added
  pub addr6_added : Bool
  pub link_up : Bool
  pub nft_runs : Bool  -- `nft` can be started
  pub nft_deletes : Bool  -- and deletes the table
  pub nft_loads : Bool  -- and accepts the script
  pub resolvectl_works : Bool
  pub link_deletes : Bool
  pub route_deletes : AddedRoute → Table → Bool
  pub journal_writes : Bool
  pub journal_removes : Bool

-- `restore_added` does not add routes.
abbrev pub withdraw : Answers → List AddedRoute → Table → Table
withdraw a = restore_added (λ _ _. failed) a.route_deletes

abbrev pub withdraw_if_any : Answers → Option (List AddedRoute) → Table → Table
withdraw_if_any a none t = t
withdraw_if_any a (some added) t = withdraw a added t

unfoldable pub revert_resolved : Answers → System → System
revert_resolved a s = if a.resolvectl_works then record s { resolved = none } else s

-- `flush_named`: `Err` where `nft` cannot be started, else `Ok`, whatever it answers.
unfoldable pub flush_table : Answers → System → Bool × System
flush_table a s =
    if a.nft_runs then (true, if a.nft_deletes then record s { table = [] } else s) else (false, s)

unfoldable pub delete_link : Answers → System → System
delete_link a s = if a.link_deletes then record s { tun = false } else s

unfoldable pub remove_journal : Answers → System → System
remove_journal a s = if a.journal_removes then record s { journal = none } else s

unfoldable pub cleanup_stale : Answers → System → System
unfolding revert_resolved flush_table delete_link remove_journal
cleanup_stale a s =
    let s₁ = revert_resolved a s in
    let s₂ = record s₁ { routes = withdraw_if_any a s₁.journal s₁.routes } in
    let s₃ = (flush_table a s₂).1 in remove_journal a (delete_link a s₃)

unfoldable pub teardown_session : Answers → System → System
unfolding cleanup_stale revert_resolved
teardown_session a s =
    let s₁ = revert_resolved a s in
    let s₂ = record s₁ { active = none; routes = withdraw_if_any a s₁.active s₁.routes } in
    cleanup_stale a s₂

-- Whether every `?` of `configure_tun` is passed.
unfoldable pub configure_tun : Answers → ApplySpec → Bool
configure_tun a spec =
    a.mtu_set && (a.addr_added && ((not spec.ipv6 || a.addr6_added) && a.link_up))

-- `apply_table`: the table is deleted, and the script loaded.
unfoldable pub apply_table : Answers → Str → System → Bool × System
unfolding flush_table
apply_table a script s =
    let (flushed, t) = flush_table a s in
    if flushed && a.nft_loads
    then (true, record t { table = t.table ++ (script ∷ []) })
    else (false, t)

-- The servers that `configure_resolved` passes to `resolvectl dns`.
abbrev pub resolved_servers : List Str → List Str
resolved_servers servers = if is_empty servers then default_dns_servers else servers

-- The state keeps what the first of the runs of `resolvectl`, `resolvectl dns`, sets, and
-- `resolvectl_works` is its answer; the answers of the others only go into the message.
unfoldable pub configure_resolved : Answers → List Str → System → System
configure_resolved a servers s =
    if a.resolvectl_works then record s { resolved = some (resolved_servers servers) } else s

unfoldable pub write_journal : Answers → List AddedRoute → System → Bool × System
write_journal a added s =
    if a.journal_writes then (true, record s { journal = some added }) else (false, s)

-- `tun_fd` is dropped where `apply_spec` returns an error; the device is not persistent.
abbrev pub close_tun : System → System
close_tun s = record s { tun = false }

-- The DNS policy of `apply_spec`.
unfoldable pub configure_dns : Answers → ApplySpec → System → System
unfolding configure_resolved
configure_dns a spec s =
    let policy = effective_policy true (parse spec.dns_mode) in
    let servers = resolve_servers policy spec.dns_servers in
    if should_configure_resolved policy then configure_resolved a servers s else s

pub data ApplyError : Type 0 where
  invalid already_active no_tun no_config no_table no_journal : ApplyError

abbrev pub is_active : Option (List AddedRoute) → Bool
is_active none = false
is_active (some _) = true

module _ (show_ip : IpAddr → Str) (show_net : IpNet → Str) where
  abbrev pub bypass_of : ApplySpec → List IpNet
  bypass_of spec =
      if spec.bypass_private then spec.extra_bypass ++ private_cidrs else spec.extra_bypass

  unfoldable pub script_of : ApplySpec → Str
  script_of spec =
      render_table show_ip show_net spec.server_ips (bypass_of spec) spec.kill_switch
        spec.transproxy_port spec.dns_port spec.ipv6 spec.udp_port

  -- The end of `apply_spec`, from the DNS policy on.
  unfoldable pub finish_apply : Answers → ApplySpec → System → Result (Unit {0}) ApplyError × System
  unfolding write_journal
  finish_apply a spec s =
      let (written, t) = write_journal a [] (configure_dns a spec s) in
      if written then (ok tt, record t { active = some [] }) else (err no_journal, close_tun t)

  -- The middle of `apply_spec`, on a system that was cleaned up.
  unfoldable pub set_up : Answers → ApplySpec → System → Result (Unit {0}) ApplyError × System
  unfolding delete_link apply_table configure_tun
  set_up a spec s =
      let with_tun = record s { tun = true } in
      let (loaded, s₁) = apply_table a (script_of spec) with_tun in
      if not a.tun_created
      then (err no_tun, s)
      else if not (configure_tun a spec)
      then (err no_config, close_tun (delete_link a with_tun))
      else if not loaded
      then (
        err no_table,
        close_tun (delete_link a (record s₁ { routes = withdraw a [] s₁.routes })),
      )
      else finish_apply a spec s₁

  unfoldable pub apply_spec : Answers → ApplySpec → System → Result (Unit {0}) ApplyError × System
  unfolding set_up cleanup_stale
  apply_spec a spec s = elim (validate spec) [
    | err e ↦ (err invalid, s)
    | ok _ ↦
        if is_active s.active then (err already_active, s) else set_up a spec (cleanup_stale a s)
  ]
