-- ===== src/Helper/System/Restore.antt =====
-- What is left after a teardown, and after a cleanup.
use easy_connection.Prelude.{◌≡◌, refl, arith, true, false, none, []}
use easy_connection.Helper.System.{
  System, Answers, revert_resolved, flush_table, delete_link, remove_journal, cleanup_stale,
  teardown_session,
}

-- Every command of a teardown does its work.
pub record Works (a : Answers) : Type 0 where
  pub runs : a.nft_runs ≡ true
  pub deletes : a.nft_deletes ≡ true
  pub resolves : a.resolvectl_works ≡ true
  pub unlinks : a.link_deletes ≡ true
  pub removes : a.journal_removes ≡ true

pub cleanup_stale-active : (a : Answers) (s : System) → (cleanup_stale a s).active ≡ s.active
unfolding cleanup_stale revert_resolved flush_table delete_link remove_journal
cleanup_stale-active a s = ground arith

pub teardown_session-active : (a : Answers) (s : System) → (teardown_session a s).active ≡ none
unfolding teardown_session revert_resolved
teardown_session-active a s = cleanup_stale-active a _

pub cleanup_stale-clean :
    (a : Answers) (s : System)
    → Works a
    → let t = cleanup_stale a s in
      (t.tun ≡ false) × (t.table ≡ []) × (t.resolved ≡ none) × (t.journal ≡ none)
unfolding cleanup_stale revert_resolved flush_table delete_link remove_journal
cleanup_stale-clean a s w =
    rw (w.runs, w.deletes, w.resolves, w.unlinks, w.removes) (refl, refl, refl, refl)

-- Where every command does its work, a teardown takes the TUN device, the nftables table, the DNS
-- servers of the device, the journal file and the session away, whatever state it finds, and a
-- second teardown changes nothing.
pub teardown_session-clean :
    (a : Answers) (s : System)
    → Works a
    → let t = teardown_session a s in
      let u = teardown_session a t in
      (t.tun ≡ false)
      × (t.table ≡ [])
      × (t.resolved ≡ none)
      × (t.journal ≡ none)
      × (t.active ≡ none)
      × (u ≡ t)
unfolding teardown_session cleanup_stale revert_resolved flush_table delete_link remove_journal
teardown_session-clean a s w =
    rw (w.runs, w.deletes, w.resolves, w.unlinks, w.removes) (refl, refl, refl, refl, refl, refl)
