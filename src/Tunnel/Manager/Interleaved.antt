-- ===== src/Tunnel/Manager/Interleaved.antt =====
-- Calls of the manager between the two locks of a round of the poller.
use mathlib.Core.Path.{subst}
use easy_connection.Prelude.{
  ℕ, ◌≡◌, ◌⊎◌, inl, inr, refl, sym, Bool, true, false, not, Option, none, some, List, [], ◌∷◌, ◌++◌,
  All, is_some, Bool-cases, ok, err,
}
use easy_connection.Config.Model.{ConnectionConfig}
use easy_connection.Tunnel.State.{ConnectionSnapshot, TunnelError}
use easy_connection.Tunnel.Full.{Calls}
use easy_connection.Tunnel.Upstream.{Dials}
use easy_connection.Tunnel.Manager.{ConnectionManager, new, publish}
use easy_connection.Tunnel.Manager.Connect.{is_socks, attempt, connect}
use easy_connection.Tunnel.Manager.Disconnect.{
  disconnect, Counters, is_up, traffic, poll_read, poll_write,
}
use easy_connection.Tunnel.Manager.Truth.{Agrees, Truthful, connect_refuses, connect-Truthful}
use easy_connection.Tunnel.Manager.Ends.{disconnect-Truthful, poll-Agrees}
use easy_connection.Tunnel.Manager.Rounds.{
  by_connect, by_disconnect, by_read, by_write, starts, then_step, Pending, System, overtaken,
  refuses, connected_by, disconnected, read_by, written_by, Step, Reach,
}
use easy_connection.Tunnel.Manager.Service.{Service, Op}

-- A fresh round writes what is true of the manager.
abbrev pub IsFresh : ConnectionManager → Pending → Type 0
IsFresh m p =
    p.fresh ≡ true → (snap : ConnectionSnapshot) → p.write ≡ some snap → Agrees m.active snap m.live

pub record IsSound (s : System) : Type 0 where
  -- Some snapshot would be true.
  pub would_be : (snap : ConnectionSnapshot) × Agrees s.manager.active snap s.manager.live
  pub is_true : s.late ≡ false → Truthful s.manager
  pub are_fresh : All (IsFresh s.manager) s.pending

overtaken-AreFresh : (m : ConnectionManager) (ps : List Pending) → All (IsFresh m) (overtaken ps)
overtaken-AreFresh m [] = tt
overtaken-AreFresh m (p ∷ ps) = (λ e. absurd (cc e), overtaken-AreFresh m ps)

others-IsFresh :
    (m : ConnectionManager) (before : List Pending) (p : Pending) (behind : List Pending)
    → All (IsFresh m) (before ++ (p ∷ behind))
    → IsFresh m p × All (IsFresh m) (before ++ behind)
others-IsFresh m [] p behind (h, hs) = (h, hs)
others-IsFresh m (q ∷ before) p behind (h, hs) =
    let r = others-IsFresh m before p behind hs in (r.0, (h, r.1))

-- A connect is refused, or does not look at the snapshot.
connect_or_refuses :
    (now : ℕ) (dials : Dials) (calls : Calls) (profile : ConnectionConfig) (m : ConnectionManager)
    (snap : ConnectionSnapshot)
    → ((refuses profile m ≡ true)
        × ((e : TunnelError) × (connect now dials calls profile m ≡ (err e, m))))
      ⊎ (connect now dials calls profile m ≡ connect now dials calls profile (publish snap m))
unfolding connect attempt
connect_or_refuses now dials calls profile m snap = elim (Bool-cases (is_some m.active)) [
  | inl a ↦ inl (rw a refl, connect_refuses now dials calls profile m (inl a))
  | inr a ↦ elim (Bool-cases (is_socks profile.protocol)) [
    | inl k ↦ inl (rw (a, k) refl, connect_refuses now dials calls profile m (inr k))
    | inr k ↦ inr (rw (a, k) refl)
  ]
]

read-IsFresh :
    (rate : ℕ → ℕ) (last now : Counters) (m : ConnectionManager) (late : Bool)
    → (late ≡ false → Truthful m)
    → IsFresh m (record { write = poll_read rate last now m; fresh = not late })
unfolding poll_read
read-IsFresh rate last now m true t e snap w = absurd (cc e)
read-IsFresh rate last now m false t e snap w = elim (Bool-cases (is_up m.snapshot.state)) [
  | inl u ↦
      let wrote : record m.snapshot { stats = traffic rate last now } ≡ snap = cc (rw u at w) in
      subst (λ x. Agrees m.active x m.live) wrote
        (poll-Agrees (traffic rate last now) m.active m.snapshot m.live (t refl))
  | inr u ↦ absurd (cc (rw u at w))
]

module _ (now : ℕ) (dials : Dials) (calls : Calls) (profile : ConnectionConfig)
    (usable : calls.from_owned_fd ≡ ok tt) where
  connect-IsSound : (s : System) → IsSound s → IsSound (connected_by now dials calls profile s)
  connect-IsSound s r =
      let m = s.manager in
      elim (connect_or_refuses now dials calls profile m r.would_be.0) [
        | inl (said, (e, same)) ↦ record {
          would_be =
              subst (λ x. (snap : ConnectionSnapshot) × Agrees x.1.active snap x.1.live) (sym same)
                r.would_be;
          is_true = λ l. subst (λ x. Truthful x.1) (sym same) (r.is_true (rw said at l));
          are_fresh = overtaken-AreFresh (connect now dials calls profile m).1 s.pending;
        }
        | inr same ↦
            let t : Truthful (connect now dials calls profile m).1 =
              subst (λ x. Truthful x.1) (sym same)
                (connect-Truthful now dials calls profile (publish r.would_be.0 m) usable
                  r.would_be.1) in
            record {
              would_be = ((connect now dials calls profile m).1.snapshot, t);
              is_true = λ l. t;
              are_fresh = overtaken-AreFresh (connect now dials calls profile m).1 s.pending;
            }
      ]

disconnect-IsSound : (s : System) → IsSound s → IsSound (disconnected s)
unfolding disconnect
disconnect-IsSound s r =
    let t = disconnect-Truthful (publish r.would_be.0 s.manager) r.would_be.1 in
    record {
      would_be = ((disconnect s.manager).1.snapshot, t);
      is_true = λ l. t;
      are_fresh = overtaken-AreFresh (disconnect s.manager).1 s.pending;
    }

read-IsSound :
    (rate : ℕ → ℕ) (last now : Counters) (s : System)
    → IsSound s
    → IsSound (read_by rate last now s)
read-IsSound rate last now s r = record {
  would_be = r.would_be;
  is_true = r.is_true;
  are_fresh = (read-IsFresh rate last now s.manager s.late r.is_true, r.are_fresh);
}

write-IsSound :
    (w : Option ConnectionSnapshot) (fresh : Bool) (others : List Pending) (s : System)
    → IsSound s
    → IsFresh s.manager (record { write = w; fresh = fresh })
    → All (IsFresh s.manager) others
    → IsSound (written_by (record { write = w; fresh = fresh }) others s)
unfolding poll_write
write-IsSound none fresh others s r f os = record {
  would_be = r.would_be;
  is_true = r.is_true;
  are_fresh = os;
}
write-IsSound (some snap) true others s r f os = record {
  would_be = r.would_be;
  is_true = λ l. f refl snap refl;
  are_fresh = os;
}
write-IsSound (some snap) false others s r f os = record {
  would_be = r.would_be;
  is_true = λ l. absurd (cc l);
  are_fresh = os;
}

Step-IsSound : {op : Op} {s t : System} → Step op s t → IsSound s → IsSound t
Step-IsSound (by_connect now dials calls profile s h) r =
    connect-IsSound now dials calls profile h s r
Step-IsSound (by_disconnect s) r = disconnect-IsSound s r
Step-IsSound (by_read rate last now s) r = read-IsSound rate last now s r
Step-IsSound (by_write p before behind s e) r =
    let f =
      others-IsFresh s.manager before p behind (subst (All (IsFresh s.manager)) e r.are_fresh) in
    write-IsSound p.write p.fresh (before ++ behind) s r f.0 f.1

pub Reach-IsSound : {s : System} → Reach s → IsSound s
Reach-IsSound starts = record {
  would_be = (new.snapshot, (refl, refl));
  is_true = λ l. (refl, refl);
  are_fresh = tt;
}
Reach-IsSound (then_step r step) = Step-IsSound step (Reach-IsSound r)
