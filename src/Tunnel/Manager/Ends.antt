-- ===== src/Tunnel/Manager/Ends.antt =====
-- What a disconnect leaves is truthful, and so is what a round of the poller will write.
use easy_connection.Prelude.{
  ◌≡◌, ◌⊎◌, inl, inr, refl, sym, arith, Bool, true, false, Option, none, some, List, [], is_some,
  if◌then◌else◌,
}
use easy_connection.Tunnel.State.{TrafficStats, ConnectionSnapshot}
use easy_connection.Tunnel.Full.{Task}
use easy_connection.Tunnel.Upstream.{SshSession}
use easy_connection.Tunnel.Manager.{ActiveSession, Live, nothing, ConnectionManager}
use easy_connection.Tunnel.Manager.Disconnect.{end_active, end_session, disconnect, end_active}
use easy_connection.Tunnel.Manager.Truth.{Up, Agrees, Truthful}

all_ended :
    (ssh : Option SshSession) (tasks : List Task) (helper : Bool)
    → ssh ≡ none
    → tasks ≡ []
    → helper ≡ false
    → record {
      ssh = ssh;
      proxies = none;
      running = record { tasks = tasks; helper = helper };
      poller = false;
    }
      ≡ nothing
all_ended ssh tasks helper s t h = rw (s, t, h) refl

end_session-nothing :
    (s : ActiveSession) (snap : ConnectionSnapshot) (live : Live)
    → Up s snap live
    → end_session s live ≡ nothing
end_session-nothing s snap live t =
    all_ended _ _ _ (ssh_ended s.ssh live.ssh t.ssh_kept) (tasks_ended t.can_stop)
      (helper_ended s.helper live.running.helper t.helper_kept)
  where
    ssh_ended :
        (kept runs : Option SshSession) → runs ≡ kept → (if is_some kept then none else runs) ≡ none
    ssh_ended none runs e = e
    ssh_ended (some x) runs e = refl

    tasks_ended :
        (s.tun_stop ≡ true) ⊎ (live.running.tasks ≡ [])
        → (if s.tun_stop then [] else live.running.tasks) ≡ []
    tasks_ended (inl e) = rw e refl
    tasks_ended (inr e) = ground (arith, e)

    helper_ended : (kept runs : Bool) → kept ≡ runs → (if kept then false else runs) ≡ false
    helper_ended true runs e = refl
    helper_ended false runs e = sym e

pub disconnect-Truthful : (m : ConnectionManager) → Truthful m → Truthful (disconnect m).1
unfolding disconnect
disconnect-Truthful m t = (refl, ended m.active t)
  where
    ended : (s : Option ActiveSession) → Agrees s m.snapshot m.live → end_active s m.live ≡ nothing
    ended none (u, l) = l
    ended (some s) t = end_session-nothing s m.snapshot m.live t

pub poll-Agrees :
    (stats : TrafficStats) (s : Option ActiveSession) (snap : ConnectionSnapshot) (live : Live)
    → Agrees s snap live
    → Agrees s (record snap { stats = stats }) live
poll-Agrees stats none snap live t = t
poll-Agrees stats (some s) snap live t = record {
  says_up = t.says_up;
  helper_said = t.helper_said;
  tun_said = t.tun_said;
  socks_said = t.socks_said;
  http_said = t.http_said;
  helper_kept = t.helper_kept;
  ssh_kept = t.ssh_kept;
  proxies_kept = t.proxies_kept;
  polled = t.polled;
  can_stop = t.can_stop;
}
