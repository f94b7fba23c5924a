-- ===== src/Tunnel/Manager/Rounds.antt =====
-- crates/tunnel/src/manager.rs: the manager with the rounds of its pollers between their two locks. A
-- connect and a disconnect are one step each.
use easy_connection.Prelude.{
  ℕ, ◌≡◌, Bool, false, not, ◌||◌, Option, List, [], ◌∷◌, ◌++◌, is_some, is_ok, if◌then◌else◌, ok,
}
use easy_connection.Config.Model.{ConnectionConfig}
use easy_connection.Tunnel.State.{ConnectionSnapshot}
use easy_connection.Tunnel.Full.{Calls}
use easy_connection.Tunnel.Upstream.{Dials}
use easy_connection.Tunnel.Manager.{ConnectionManager, new}
use easy_connection.Tunnel.Manager.Connect.{is_socks, connect}
use easy_connection.Tunnel.Manager.Disconnect.{disconnect, Counters, poll_read, poll_write}
use easy_connection.Tunnel.Manager.Service.{Op, connects, disconnects, reads, writes}

-- What a round of a poller has read and will write, if anything; `fresh` as long as no connect and
-- no disconnect has come in between, and where no late write stood when it was read.
pub record Pending : Type 0 where
  pub write : Option ConnectionSnapshot
  pub fresh : Bool

-- The manager, the rounds between their two locks, and whether the snapshot was last written by a
-- round that is not fresh.
pub record System : Type 0 where
  pub manager : ConnectionManager
  pub pending : List Pending
  pub late : Bool

abbrev pub begin : System
begin = record { manager = new; pending = []; late = false }

abbrev pub overtaken : List Pending → List Pending
overtaken [] = []
overtaken (p ∷ ps) = record { write = p.write; fresh = false } ∷ overtaken ps

-- A connect that is refused publishes nothing.
abbrev pub refuses : ConnectionConfig → ConnectionManager → Bool
refuses profile m = is_some m.active || is_socks profile.protocol

abbrev pub late_after : Pending → Bool → Bool
late_after p late = if is_some p.write then not p.fresh else late

abbrev pub connected_by : ℕ → Dials → Calls → ConnectionConfig → System → System
connected_by now dials calls profile s = record {
  manager = (connect now dials calls profile s.manager).1;
  pending = overtaken s.pending;
  late = if refuses profile s.manager then s.late else false;
}

abbrev pub disconnected : System → System
disconnected s = record {
  manager = (disconnect s.manager).1;
  pending = overtaken s.pending;
  late = false;
}

abbrev pub read_by : (ℕ → ℕ) → Counters → Counters → System → System
read_by rate last now s = record {
  manager = s.manager;
  pending = record { write = poll_read rate last now s.manager; fresh = not s.late } ∷ s.pending;
  late = s.late;
}

abbrev pub written_by : Pending → List Pending → System → System
written_by p others s = record {
  manager = poll_write p.write s.manager;
  pending = others;
  late = late_after p s.late;
}

pub data Step : Op → System → System → Type 0 where
  by_connect :
      (now : ℕ) (dials : Dials) (calls : Calls) (profile : ConnectionConfig) (s : System)
      → calls.from_owned_fd ≡ ok tt
      → Step
          (connects (is_ok (connect now dials calls profile s.manager).0))
          s
          (connected_by now dials calls profile s)
  by_disconnect : (s : System) → Step disconnects s (disconnected s)
  by_read :
      (rate : ℕ → ℕ) (last now : Counters) (s : System) → Step reads s (read_by rate last now s)
  by_write :
      (p : Pending) (before behind : List Pending) (s : System)
      → s.pending ≡ before ++ (p ∷ behind)
      → Step writes s (written_by p (before ++ behind) s)

pub data Reach : System → Type 0 where
  starts : Reach begin
  then_step : {op : Op} {s t : System} → Reach s → Step op s t → Reach t
