-- ===== src/Helper/Tests.antt =====
-- The theorems about the helper at concrete requests.
use easy_connection.Prelude.{◌≡◌, refl, arith, true, false, eq_bytes, none, some, [], ◌∷◌, ◌++◌, ok}
use easy_connection.Prelude.{ℕ, List, Bytes, Option, ◌⊎◌, ◌≤◌, ◌<◌, length, replicate}
use easy_connection.Helper.Frame.{
  max_frame, frame_too_large, Chunk, SendAnswer, wrote, send_again, sent, send_error, framed,
  send_frame, send_loop, RecvAnswer, got, recv_again, received, recv_frame,
}
use easy_connection.Helper.Frame.Chunks.{Carries}
use easy_connection.Helper.Frame.Filled.{Brings, done, retry, chunk}
use easy_connection.Helper.Frame.Delivery.{recv_frame-send_frame}
use easy_connection.Helper.Frame.Progress.{send_frame_ends}
use easy_connection.Prelude.Assoc.{get}
use easy_connection.Prelude.Net.{IpAddr, v4, octets, IpNet}
use easy_connection.Prelude.Text.{Str, codes}
use easy_connection.Nft.{tun_name}
use easy_connection.Helper.Spec.{
  ApplySpec, teardown, apply, validate, default_transproxy_port, default_dns_port,
}
use easy_connection.Helper.System.{
  System, Answers, cleanup_stale, teardown_session, apply_spec, set_up, finish_apply, configure_tun,
  apply_table, revert_resolved, remove_journal, write_journal, flush_table, delete_link,
}
use easy_connection.Helper.System.Restore.{Works, teardown_session-clean}
use easy_connection.Helper.System.Apply.{Outcome, apply_spec-Outcome}
use easy_connection.Helper.Serve.Clients.{
  Server, owns_at, connect, request, disconnect, starts, then, accepts, Owned, Reach-Owned,
  stale_owner_tears_down,
}

abbrev show_ip : IpAddr → Str
show_ip ip = octets ip

abbrev show_net : IpNet → Str
show_net net = octets net.addr ++ (net.prefix ∷ [])

abbrev spec : ApplySpec
spec = record {
  session_id = 1;
  tun_name = tun_name;
  tun_addr = v4 (10 ∷ 254 ∷ 0 ∷ 2 ∷ []);
  tun_prefix = 24;
  mtu = 1500;
  server_ips = v4 (203 ∷ 0 ∷ 113 ∷ 7 ∷ []) ∷ [];
  bypass_private = false;
  extra_bypass = [];
  ipv6 = false;
  kill_switch = true;
  transproxy_port = default_transproxy_port;
  dns_port = default_dns_port;
  dns_mode = codes "tunnel";
  dns_servers = [];
  udp_port = 0;
}

-- Every command works.
abbrev all_work : Answers
all_work = record {
  tun_created = true;
  mtu_set = true;
  addr_added = true;
  addr6_added = true;
  link_up = true;
  nft_runs = true;
  nft_deletes = true;
  nft_loads = true;
  resolvectl_works = true;
  link_deletes = true;
  route_deletes = λ _ _. true;
  journal_writes = true;
  journal_removes = true;
}

all_work-Works : Works all_work
all_work-Works = record {
  runs = refl;
  deletes = refl;
  resolves = refl;
  unlinks = refl;
  removes = refl;
}

abbrev idle : System
idle = record {
  tun = false;
  table = [];
  resolved = none;
  journal = none;
  routes = [];
  active = none;
}

-- A session that an earlier run left behind.
abbrev left_over : System
left_over = record {
  tun = true;
  table = codes "old" ∷ [];
  resolved = some [];
  journal = some [];
  routes = [];
  active = some [];
}

validate-spec : validate spec ≡ ok tt
unfolding validate eq_bytes
validate-spec = refl

teardown_session-clean_example :
    let t = teardown_session all_work left_over in
    let u = teardown_session all_work t in
    (t.tun ≡ false)
    × (t.table ≡ [])
    × (t.resolved ≡ none)
    × (t.journal ≡ none)
    × (t.active ≡ none)
    × (u ≡ t)
teardown_session-clean_example = teardown_session-clean all_work left_over all_work-Works

apply_spec-Outcome_example :
    Outcome show_ip show_net spec idle (apply_spec show_ip show_net all_work spec idle)
apply_spec-Outcome_example = apply_spec-Outcome show_ip show_net spec all_work idle all_work-Works

-- A client with a session, and a second client.
abbrev two_clients : Server
two_clients = record { sys = left_over; clients = (1, true) ∷ (2, false) ∷ [] }

first_owns : owns_at 1 two_clients ≡ some true
unfolding get
first_owns = ground arith

second_does_not : owns_at 2 two_clients ≡ some false
unfolding get
second_does_not = ground arith

Reach-Owned_example : Owned (connect 1 (record { sys = idle; clients = [] }))
Reach-Owned_example =
    Reach-Owned show_ip show_net (
      then (starts idle refl)
        (accepts 1 (record { sys = idle; clients = [] }) (unfold get in refl)))

applies_after_teardown :
    (apply_spec show_ip show_net all_work spec (teardown_session all_work left_over)).0 ≡ ok tt
unfolding apply_spec validate eq_bytes set_up finish_apply configure_tun apply_table write_journal
    flush_table cleanup_stale teardown_session revert_resolved delete_link remove_journal
applies_after_teardown = refl

stale_owner_tears_down_example :
    let w = request show_ip show_net all_work 2 1000 teardown false two_clients in
    let x = request show_ip show_net all_work 2 1000 (apply spec) false w in
    let y = disconnect all_work 1 true x in
    (owns_at 1 x ≡ some true) × (owns_at 2 y ≡ some true) × (y.sys.active ≡ none)
stale_owner_tears_down_example =
    stale_owner_tears_down show_ip show_net all_work 1 2 1000 spec two_clients first_owns
      second_does_not applies_after_teardown

abbrev payload : Bytes
payload = 1 ∷ 2 ∷ []

-- The socket takes one byte, asks to try again, and takes what is left.
abbrev cut_sends : List SendAnswer
cut_sends = wrote 1 ∷ send_again ∷ wrote 9 ∷ []

abbrev part : Bytes → Option ℕ → Chunk
part bytes fd = record { bytes = bytes; fd = fd }

-- The receiver gets the bytes in other pieces, with a byte of the next frame behind them.
abbrev cut_chunks : List Chunk
cut_chunks = part (0 ∷ 0 ∷ 0 ∷ []) (some 7) ∷ part (2 ∷ 1 ∷ []) none ∷ part (2 ∷ 9 ∷ []) none ∷ []

abbrev cut_receives : List RecvAnswer
cut_receives =
    got (part (0 ∷ 0 ∷ 0 ∷ []) (some 7))
    ∷ recv_again
    ∷ got (part (2 ∷ 1 ∷ []) none)
    ∷ got (part (2 ∷ 9 ∷ []) none)
    ∷ []

cut_Brings : Brings cut_receives cut_chunks
cut_Brings = chunk _ (ground arith) (retry (chunk _ (ground arith) (chunk _ (ground arith) done)))

recv_frame-send_frame_example :
    (0 ∷ 0 ∷ 0 ∷ 2 ∷ 1 ∷ 2 ∷ [] ≡ framed payload)
    × Carries (some 7) (part (0 ∷ []) (some 7) ∷ part (0 ∷ 0 ∷ 2 ∷ 1 ∷ 2 ∷ []) none ∷ [])
    × ((left : List RecvAnswer) × (recv_frame cut_receives
          ≡ received (record { payload = payload; fd = some 7 }) left))
unfolding send_frame send_loop
recv_frame-send_frame_example =
    recv_frame-send_frame cut_sends payload (9 ∷ []) (some 7) refl cut_Brings refl
      (refl, (refl, (refl, tt)))

send_frame_ends_example :
    ((length payload ≤ max_frame)
      × ((cs : List Chunk) × (send_frame (replicate 6 (wrote 1)) payload none ≡ sent cs)))
    ⊎ ((max_frame < length payload)
        × (send_frame (replicate 6 (wrote 1)) payload none ≡ send_error frame_too_large))
send_frame_ends_example =
    send_frame_ends (replicate 6 (wrote 1)) payload none (ground arith) (omega arith)
