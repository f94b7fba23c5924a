-- ===== src/Udpgw/Client/Routing.antt =====
-- Replies find their way back: every key has a conid of its own, whose flow holds its sender.
use native.Mathlib.Decide.{ℕ_discrete}
use mathlib.Core.List.{Memᴰ}
use easy_connection.Prelude.{
  ℕ, ◌+◌, ◌%◌, ◌<◌, ◌≡◌, ◌≢◌, refl, arith, Bool, true, false, Option, none, some, List, ◌∷◌, Bytes,
  Option-cases, Result-cases, Bool-cases, inl, inr,
}
use easy_connection.Prelude.Assoc.{get, insert, remove, get-insert, get-remove}
use easy_connection.Prelude.Net.{SocketAddr}
use easy_connection.Udpgw.Proto.{UdpgwPacket, has_flag, flag_keepalive, data_packet, decode_body}
use easy_connection.Udpgw.Client.{
  Flow, udp, dns, Key, Key-discrete, Inner, World, Wait, answered, sender_dropped, timed_out,
  get_flow, get_key, add_flow, new_inner, write_packet, conid_of, send_udp, start_query,
  finish_query, handle_body, send_keepalive, wait_on, Step, datagram, query, settle, body, tick,
  Reach, here, next, start, route,
}

abbrev flow_at : ℕ → List (ℕ × Flow) → Option Flow
flow_at = get ℕ_discrete

abbrev key_at : Key → List (Key × ℕ) → Option ℕ
key_at = get Key-discrete

-- What holds of the counter, the flows, the keys and the waits as long as conids last.
pub record TableInv (n : ℕ) (flows : List (ℕ × Flow)) (keys : List (Key × ℕ)) (waiting : List ℕ)
    : Type 0 where
  pub counter : n < 65536
  pub key_below : (k : Key) (id : ℕ) → key_at k keys ≡ some id → id < n
  pub key_routed : (k : Key) (id : ℕ) → key_at k keys ≡ some id → flow_at id flows ≡ some (udp k.0)
  pub key_unique : (k j : Key) (id : ℕ) → key_at k keys ≡ some id → key_at j keys ≡ some id → k ≡ j
  pub wait_below : (id : ℕ) → Memᴰ id waiting → id < n
  pub wait_apart : (id : ℕ) (k : Key) → Memᴰ id waiting → key_at k keys ≢ some id

abbrev pub Inv : World → Type 0
Inv w = TableInv w.inner.next_conid w.inner.flows w.inner.keys w.waiting

module _ (n : ℕ) (flows : List (ℕ × Flow)) (keys : List (Key × ℕ)) (waiting : List ℕ)
    (v : TableInv n flows keys waiting) where
  TableInv-add_key :
      (k : Key)
      → key_at k keys ≡ none
      → n < 65535
      → TableInv
          (n + 1)
          (insert ℕ_discrete n (udp k.0) flows)
          (insert Key-discrete k n keys)
          waiting
  TableInv-add_key k new room = record {
    counter = omega arith;
    key_below = λ j id e. ground (arith, get-insert Key-discrete j k n keys, v.key_below j id);
    key_routed = λ j id e. ground (
      arith,
      get-insert Key-discrete j k n keys,
      get-insert ℕ_discrete id n (udp k.0) flows,
      v.key_routed j id,
      v.key_below j id,
    );
    key_unique = λ i j id e f. ground (
      arith,
      get-insert Key-discrete i k n keys,
      get-insert Key-discrete j k n keys,
      v.key_unique i j id,
      v.key_below i id,
      v.key_below j id,
    );
    wait_below = λ id m. omega (arith, v.wait_below id m);
    wait_apart = λ id j m e.
        ground (arith, get-insert Key-discrete j k n keys, v.wait_apart id j m, v.wait_below id m);
  }

  TableInv-add_wait :
      (f : Flow) → n < 65535 → TableInv (n + 1) (insert ℕ_discrete n f flows) keys (n ∷ waiting)
  TableInv-add_wait f room = record {
    counter = omega arith;
    key_below = λ j id e. omega (arith, v.key_below j id e);
    key_routed = λ j id e.
        ground (arith, get-insert ℕ_discrete id n f flows, v.key_routed j id e, v.key_below j id e);
    key_unique = v.key_unique;
    wait_below = below;
    wait_apart = apart;
  }
    where
      below : (id : ℕ) → Memᴰ id (n ∷ waiting) → id < n + 1
      below id (Memᴰ.head e) = omega arith
      below id (Memᴰ.tail m) = omega (arith, v.wait_below id m)

      apart : (id : ℕ) (k : Key) → Memᴰ id (n ∷ waiting) → key_at k keys ≢ some id
      apart id k (Memᴰ.head e) h = omega (arith, v.key_below k id h)
      apart id k (Memᴰ.tail m) h = v.wait_apart id k m h

  -- A query whose packet is not written takes its flow out again; its conid is spent.
  TableInv-spend :
      (f : Flow)
      → n < 65535
      → TableInv (n + 1) (remove ℕ_discrete n (insert ℕ_discrete n f flows)) keys waiting
  TableInv-spend f room = record {
    counter = omega arith;
    key_below = λ j id e. omega (arith, v.key_below j id e);
    key_routed = λ j id e. ground (
      arith,
      get-remove ℕ_discrete id n (insert ℕ_discrete n f flows),
      get-insert ℕ_discrete id n f flows,
      v.key_routed j id e,
      v.key_below j id e,
    );
    key_unique = v.key_unique;
    wait_below = λ id m. omega (arith, v.wait_below id m);
    wait_apart = v.wait_apart;
  }

  TableInv-drop :
      (id : ℕ)
      → ((k : Key) → key_at k keys ≢ some id)
      → TableInv n (remove ℕ_discrete id flows) keys waiting
  TableInv-drop id apart = record {
    counter = v.counter;
    key_below = v.key_below;
    key_routed =
        λ j i e. ground (arith, get-remove ℕ_discrete i id flows, v.key_routed j i e, apart j);
    key_unique = v.key_unique;
    wait_below = v.wait_below;
    wait_apart = v.wait_apart;
  }

  TableInv-keep :
      (id : ℕ) (a : SocketAddr)
      → flow_at id flows ≡ some (udp a)
      → TableInv n (insert ℕ_discrete id (udp a) (remove ℕ_discrete id flows)) keys waiting
  TableInv-keep id a e = record {
    counter = v.counter;
    key_below = v.key_below;
    key_routed = λ j i h. ground (
      arith,
      get-insert ℕ_discrete i id (udp a) (remove ℕ_discrete id flows),
      get-remove ℕ_discrete i id flows,
      v.key_routed j i h,
    );
    key_unique = v.key_unique;
    wait_below = v.wait_below;
    wait_apart = v.wait_apart;
  }

-- The invariant of a table with the given waits.
abbrev InvOf : Inner → List ℕ → Type 0
InvOf s waiting = TableInv s.next_conid s.flows s.keys waiting

-- Writing to the stream leaves the table alone.
pub write_packet_table :
    (b : Bool) (p : UdpgwPacket) (s : Inner)
    → let t = (write_packet b p s).1 in
      (t.next_conid ≡ s.next_conid) × (t.flows ≡ s.flows) × (t.keys ≡ s.keys)
unfolding write_packet
write_packet_table b p s = ground arith

wrap : {n : ℕ} → n < 65535 → (n + 1) % 65536 ≡ n + 1
wrap {n} h = omega arith

module _ (b : Bool) (p : UdpgwPacket) (s : Inner) (waiting : List ℕ) where
  write_packet-Inv : InvOf s waiting → InvOf (write_packet b p s).1 waiting
  write_packet-Inv v = let (n, f, k) = write_packet_table b p s in rw (n, f, k) v

module _ (s : Inner) (waiting : List ℕ) (v : InvOf s waiting) (room : s.next_conid < 65535) where
  conid_of-Inv : (k : Key) → InvOf (conid_of k s).1 waiting
  unfolding conid_of
  conid_of-Inv k = elim (Option-cases (get_key k s)) [
    | inl e ↦ rw (e, conid_of) (rw (wrap room) (TableInv-add_key _ _ _ _ v k e room))
    | inr (id, e) ↦ rw (e, conid_of) v
  ]

  start_query-Inv :
      (b : Bool) (dest : SocketAddr) (message : Bytes) (tx : ℕ)
      → let (r, t) = start_query b dest message tx s in InvOf t (wait_on r waiting)
  unfolding start_query
  start_query-Inv b dest message tx =
      let id = s.next_conid in
      let opened = add_flow id (dns tx) (record s { next_conid = (id + 1) % 65536 }) in
      let w = write_packet b (data_packet id dest message true false) opened in
      let (n, f, k) = write_packet_table b (data_packet id dest message true false) opened in
      elim (Result-cases w.0) [
        | inl (_, e) ↦ rw (e, n, f, k, wrap room) (TableInv-add_wait _ _ _ _ v (dns tx) room)
        | inr (_, e) ↦ rw (e, n, f, k, wrap room) (TableInv-spend _ _ _ _ v (dns tx) room)
      ]

finish_query-Inv :
    (s : Inner) (waiting : List ℕ) (id : ℕ) (w : Wait)
    → Memᴰ id waiting
    → InvOf s waiting
    → InvOf (finish_query id w s).1 waiting
unfolding finish_query
finish_query-Inv s waiting id timed_out m v = TableInv-drop _ _ _ _ v id (λ k. v.wait_apart id k m)
finish_query-Inv s waiting id (answered _) m v = v
finish_query-Inv s waiting id sender_dropped m v = v

route-Inv :
    (r : Bool) (p : UdpgwPacket) (f : Option Flow) (s : Inner) (waiting : List ℕ)
    → get_flow p.conid s ≡ f
    → InvOf s waiting
    → InvOf (route r p f s).1 waiting
unfolding route
route-Inv r p none s waiting e v = v
route-Inv r p (some (dns tx)) s waiting e v =
    TableInv-drop _ _ _ _ v p.conid (λ k h. cc (v.key_routed k p.conid h))
route-Inv true p (some (udp from)) s waiting e v = TableInv-keep _ _ _ _ v p.conid from e
route-Inv false p (some (udp from)) s waiting e v = TableInv-keep _ _ _ _ v p.conid from e

handle_body-Inv :
    (r : Bool) (b : Bytes) (s : Inner) (waiting : List ℕ)
    → InvOf s waiting
    → InvOf (handle_body r b s).1 waiting
unfolding handle_body
handle_body-Inv r b s waiting v = elim (Result-cases (decode_body b)) [
  | inr (e, d) ↦ rw (d, handle_body) v
  | inl (p, d) ↦
      rw (d, handle_body)
        (elim (Bool-cases (has_flag p.flags flag_keepalive)) [
          | inl k ↦ rw k v
          | inr k ↦ rw k (route-Inv r p (get_flow p.conid s) s waiting refl v)
        ])
]

-- Every step keeps the invariant.
pub Step-Inv : {v w : World} → Step v w → Inv v → Inv w
Step-Inv (datagram b from dest payload d w room) v =
    unfold send_udp in
    write_packet-Inv b _ _ w.waiting (conid_of-Inv w.inner w.waiting v room (from, dest))
Step-Inv (query b dest message tx w room) v =
    start_query-Inv w.inner w.waiting v room b dest message tx
Step-Inv (settle id outcome w m) v = finish_query-Inv w.inner w.waiting id outcome m v
Step-Inv (body r b w) v = handle_body-Inv r b w.inner w.waiting v
Step-Inv (tick b w) v = unfold send_keepalive in write_packet-Inv b _ _ w.waiting v

start-Inv : Inv start
unfolding new_inner get
start-Inv = record {
  counter = omega arith;
  key_below = λ k id e. cc;
  key_routed = λ k id e. cc;
  key_unique = λ k j id e f. cc;
  wait_below = λ id m. elim m [ ];
  wait_apart = λ id k m e. cc;
}

pub Reach-Inv : {w : World} → Reach w → Inv w
Reach-Inv here = start-Inv
Reach-Inv (next r st) = Step-Inv st (Reach-Inv r)
