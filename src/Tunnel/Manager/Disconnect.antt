-- ===== src/Tunnel/Manager/Disconnect.antt =====
-- crates/tunnel/src/manager.rs: `disconnect`, and the poller of the statistics.
use easy_connection.Prelude.{
  ℕ, ◌-◌, Bool, true, false, Option, none, some, [], is_some, if◌then◌else◌, ok,
}
use easy_connection.Tunnel.State.{
  ConnectionState, connected, degraded, disconnecting, idle, TrafficStats, ConnectionSnapshot,
  default_snapshot,
}
use easy_connection.Tunnel.Manager.{
  ActiveSession, Live, ConnectionManager, publish, set_phase, Attempt,
}

-- What is left running when a session is ended: the tasks under `stop` if it has no `stop`. The
-- client of the helper is dropped, whatever the helper answers to the teardown.
abbrev pub end_session : ActiveSession → Live → Live
end_session s live = record {
  ssh = if is_some s.ssh then none else live.ssh;
  proxies = none;
  running = record {
    tasks = if s.tun_stop then [] else live.running.tasks;
    helper = if s.helper then false else live.running.helper;
  };
  poller = false;
}

abbrev pub end_active : Option ActiveSession → Live → Live
end_active none live = live
end_active (some s) live = end_session s live

unfoldable pub disconnect : ConnectionManager → Attempt
disconnect m = (
  ok default_snapshot,
  publish default_snapshot (record (set_phase disconnecting idle m) {
    active = none;
    live = end_active m.active m.live;
  }),
)

-- The counters of the proxies.
pub record Counters : Type 0 where
  pub up : ℕ
  pub down : ℕ
  pub flows : ℕ

abbrev pub is_up : ConnectionState → Bool
is_up connected = true
is_up degraded = true
is_up _ = false

abbrev pub traffic : (ℕ → ℕ) → Counters → Counters → TrafficStats
traffic rate last now = record {
  bytes_down = now.down;
  bytes_up = now.up;
  rate_down_bps = rate (now.down - last.down);
  rate_up_bps = rate (now.up - last.up);
  active_flows = now.flows;
}

-- A round of the poller up to its write: the snapshot that it will write, if any. `last` is what
-- the round before read, and `rate` divides by the time since then.
unfoldable pub poll_read :
    (ℕ → ℕ) → Counters → Counters → ConnectionManager → Option ConnectionSnapshot
poll_read rate last now m =
    if is_up m.snapshot.state
    then some (record m.snapshot { stats = traffic rate last now })
    else none

-- The write of the round.
unfoldable pub poll_write : Option ConnectionSnapshot → ConnectionManager → ConnectionManager
poll_write none m = m
poll_write (some snap) m = publish snap m
