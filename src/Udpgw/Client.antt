-- ===== src/Udpgw/Client.antt =====
-- crates/udpgw/src/client.rs: the table of flows behind one UDPGW stream. The peer, the stream
-- and the clock act through the arguments: whether a write of the stream succeeds, the bodies
-- that arrive, whether the receiver of replies is open, and when a DNS query times out.
pub mod Routing
pub mod Frames
pub mod Replies
use native.Mathlib.Decide.{ℕ_discrete}
use Prim.Native.Nat.{bit_and}
use easy_connection.Prelude.{
  ℕ, ◌+◌, ◌%◌, ◌<◌, Bool, true, false, not, ◌||◌, Option, none, some, List, [], ◌∷◌, ◌++◌, ltb,
  ◌==◌, if◌then◌else◌, length, take, drop, Bytes, u16_from, Result, ok, err, ◌>>=◌,
}
use mathlib.Core.List.{Memᴰ}
use easy_connection.Prelude.Assoc.{get, insert, remove}
use easy_connection.Prelude.Net.{IpAddr, SocketAddr}
use easy_connection.Udpgw.Proto.{
  UdpgwPacket, UdpgwError, io, closed, timeout, packet, invalid_frame_length, has_flag,
  flag_keepalive, keepalive, data_packet, encode_frame, decode_body,
}

abbrev pub max_frame : ℕ
max_frame = 65535

-- The number names the `oneshot` channel whose sender the flow holds.
pub data Flow : Type 0 where
  udp : SocketAddr → Flow
  dns : ℕ → Flow

pub IpAddr-discrete : Discrete IpAddr
IpAddr-discrete = hlevel ℕ_discrete

pub SocketAddr-discrete : Discrete SocketAddr
SocketAddr-discrete = hlevel (ℕ_discrete, IpAddr-discrete)

-- A key of `keys`: where the datagrams come from, and where they go.
abbrev pub Key : Type 0
Key = SocketAddr × SocketAddr

pub Key-discrete : Discrete Key
Key-discrete = hlevel SocketAddr-discrete

-- `Inner`, with what has left it: the frames written to the stream, the DNS answers sent on
-- `oneshot` channels, and the replies sent on `replies`.
pub record Inner : Type 0 where
  pub next_conid : ℕ  -- u16
  pub flows : List (ℕ × Flow)
  pub keys : List (Key × ℕ)
  pub written : List Bytes
  pub answers : List (ℕ × Bytes)
  pub replies : List (SocketAddr × Bytes)

unfoldable pub new_inner : Inner
new_inner = record {
  next_conid = 1;
  flows = [];
  keys = [];
  written = [];
  answers = [];
  replies = [];
}

abbrev pub get_flow : ℕ → Inner → Option Flow
get_flow id s = get ℕ_discrete id s.flows

abbrev pub get_key : Key → Inner → Option ℕ
get_key k s = get Key-discrete k s.keys

-- `next_conid.fetch_add(1)`: the old value, and a wrapping step.
unfoldable pub alloc_conid : Inner → ℕ × Inner
alloc_conid s = (s.next_conid, record s { next_conid = (s.next_conid + 1) % 65536 })

abbrev add_flow : ℕ → Flow → Inner → Inner
add_flow id f s = record s { flows = insert ℕ_discrete id f s.flows }

abbrev drop_flow : ℕ → Inner → Inner
drop_flow id s = record s { flows = remove ℕ_discrete id s.flows }

-- The flag is whether the writes of the stream succeed.
unfoldable pub write_packet : Bool → UdpgwPacket → Inner → Result (Unit {0}) UdpgwError × Inner
write_packet stream_ok pkt s = elim (encode_frame pkt) [
  | err e ↦ (err e, s)
  | ok frame ↦
      if stream_ok then (ok tt, record s { written = s.written ++ (frame ∷ []) }) else (err io, s)
]

-- The conid of a key, made and recorded where the key is new.
unfoldable pub conid_of : Key → Inner → ℕ × Inner
unfolding alloc_conid
conid_of k s = elim (get_key k s) [
  | some id ↦ (id, s)
  | none ↦
      let (id, t) = alloc_conid s in
      (id, add_flow id (udp k.0) (record t { keys = insert Key-discrete k id t.keys }))
]

unfoldable pub send_udp :
    Bool → SocketAddr → SocketAddr → Bytes → Bool → Inner → Result (Unit {0}) UdpgwError × Inner
send_udp stream_ok from dest payload is_dns s =
    let (id, t) = conid_of (from, dest) s in
    write_packet stream_ok (data_packet id dest payload is_dns false) t

-- The flow of a query whose packet was not written is removed again.
unwritten : ℕ → Result (Unit {0}) UdpgwError → Inner → Result ℕ UdpgwError × Inner
unwritten id (err e) s = (err e, drop_flow id s)
unwritten id (ok _) s = (ok id, s)

-- `query_dns` up to its wait. The result is the conid that it waits on.
unfoldable pub start_query : Bool → SocketAddr → Bytes → ℕ → Inner → Result ℕ UdpgwError × Inner
unfolding unwritten alloc_conid
start_query stream_ok dest query tx s =
    let (id, t) = alloc_conid s in
    let (r, u) =
      write_packet stream_ok (data_packet id dest query true false) (add_flow id (dns tx) t) in
    unwritten id r u

-- How the wait of `query_dns` ends.
pub data Wait : Type 0 where
  answered : Bytes → Wait
  sender_dropped : Wait
  timed_out : Wait

unfoldable pub finish_query : ℕ → Wait → Inner → Result Bytes UdpgwError × Inner
finish_query id (answered resp) s = (ok resp, s)
finish_query id sender_dropped s = (err closed, s)
finish_query id timed_out s = (err timeout, drop_flow id s)

-- Whether the reader goes on with the loop.
pub data Flowing : Type 0 where
  go_on : Flowing
  stop : Flowing

-- The match on `flows.remove(&pkt.conid)`.
route : Bool → UdpgwPacket → Option Flow → Inner → Flowing × Inner
route receiver_open pkt none s = (go_on, s)
route receiver_open pkt (some (dns tx)) s =
    (go_on, record (drop_flow pkt.conid s) { answers = s.answers ++ ((tx, pkt.payload) ∷ []) })
route receiver_open pkt (some (udp from)) s =
    let kept = add_flow pkt.conid (udp from) (drop_flow pkt.conid s) in
    if receiver_open
    then (go_on, record kept { replies = s.replies ++ ((from, pkt.payload) ∷ []) })
    else (stop, kept)

-- One body of `read_loop`, once it is read.
unfoldable pub handle_body : Bool → Bytes → Inner → Result Flowing UdpgwError × Inner
unfolding route
handle_body receiver_open body s = elim (decode_body body) [
  | err e ↦ (err e, s)
  | ok pkt ↦
      if has_flag pkt.flags flag_keepalive
      then (ok go_on, s)
      else let (f, t) = route receiver_open pkt (get_flow pkt.conid s) s in (ok f, t)
]

-- The framing of `read_loop`: `read_exact` of the length and of the body. The result is the
-- body, and what is left in the stream.
unfoldable pub read_frame : Bytes → Result (Bytes × Bytes) UdpgwError
read_frame (lo ∷ hi ∷ rest) =
    let len = u16_from hi lo in
    if len == 0 || ltb max_frame len
    then err (packet (invalid_frame_length len))
    else if ltb (length rest) len
    then err io
    else ok (take len rest, drop len rest)
read_frame _ = err io

-- One tick of the task that keeps the stream alive.
unfoldable pub send_keepalive : Bool → Inner → Result (Unit {0}) UdpgwError × Inner
send_keepalive stream_ok s = write_packet stream_ok (keepalive 0) s

-- The table, and the conids that tasks inside `query_dns` wait on.
pub record World : Type 0 where
  pub inner : Inner
  pub waiting : List ℕ

abbrev pub start : World
start = record { inner = new_inner; waiting = [] }

-- The wait that a started query adds.
abbrev pub wait_on : Result ℕ UdpgwError → List ℕ → List ℕ
wait_on (ok id) ids = id ∷ ids
wait_on (err e) ids = ids

-- What can happen to the table, in any order, as long as conids last: 65535 of them are handed
-- out before the counter comes round to 0.
pub data Step : World → World → Type 0 where
  datagram :
      (stream_ok : Bool) (from dest : SocketAddr) (payload : Bytes) (is_dns : Bool) (w : World)
      → w.inner.next_conid < 65535
      → Step w (record w { inner = (send_udp stream_ok from dest payload is_dns w.inner).1 })
  query :
      (stream_ok : Bool) (dest : SocketAddr) (message : Bytes) (tx : ℕ) (w : World)
      → w.inner.next_conid < 65535
      → Step w (record w {
        inner = (start_query stream_ok dest message tx w.inner).1;
        waiting = wait_on (start_query stream_ok dest message tx w.inner).0 w.waiting;
      })
  settle :
      (id : ℕ) (outcome : Wait) (w : World)
      → Memᴰ id w.waiting
      → Step w (record w { inner = (finish_query id outcome w.inner).1 })
  body :
      (receiver_open : Bool) (b : Bytes) (w : World)
      → Step w (record w { inner = (handle_body receiver_open b w.inner).1 })
  tick :
      (stream_ok : Bool) (w : World)
      → Step w (record w { inner = (send_keepalive stream_ok w.inner).1 })

pub data Reach : World → Type 0 where
  here : Reach start
  next : {v w : World} → Reach v → Step v w → Reach w
