-- ===== src/Config/SmartLink/Accepted.antt =====
-- What a Smart Config can be relied on for.
use mathlib.Core.Path.{subst}
use easy_connection.Prelude.{
  suc, ◌/◌, ◌%◌, get_or, drop, if◌then◌else◌, ℕ, ◌≤◌, ◌≡◌, refl, arith, Bool, true, false, not,
  ◌||◌, List, [], ◌∷◌, ltb, ◌==◌, length, is_empty, Bytes, All, Option, ok, err, contains, bind-ok,
  then-ok, ok_or, ok_injective,
}
use easy_connection.Prelude.Text.{Str, codes, any, str_len, trim}
use easy_connection.Config.MessagePack.{
  ℤ, pos, negsuc, Packed, Items, nil, cons, read_levels, max_depth, ImportError, invalid_host,
  link_too_long, invalid_url, not_http, not_smart_link, invalid_base64, invalid_length,
  unsupported_envelope, no_config, invalid_host_count, invalid_path, credentials_too_long,
  unsupported_version,
}
use easy_connection.Config.SmartLink.{
  RocketSmartHost, RocketSmartConfig, try_from, is_bad_in_host, check_host, int_field, str_field,
  get, as_int, as_array, read_host, read_hosts, is_version_one, starts_with_slash, read_config,
  decode_unpacked, Url, decode_rocket_smart_link, find_smart, decode_envelope, when, unpack, unmask,
  max_decoded_bytes, whole_value, max_link_bytes, is_http, nonempty, strip_prefix, decode_percent,
  or_else,
}

pub record IsHost (h : RocketSmartHost) : Type 0 where
  pub named : 1 ≤ length h.host
  pub name_len : length h.host ≤ 253
  pub name_clean : any is_bad_in_host h.host ≡ false
  pub port_set : 1 ≤ h.port
  pub port_bound : h.port ≤ 65535
  pub flag_bound : h.flag ≤ 255
  pub delay_bound : h.delay ≤ 65535

pub record IsSmart (cfg : RocketSmartConfig) : Type 0 where
  pub some_hosts : 1 ≤ length cfg.hosts
  pub few_hosts : length cfg.hosts ≤ 64
  pub are_hosts : All IsHost cfg.hosts
  pub path_rooted : starts_with_slash cfg.path ≡ true
  pub path_len : length cfg.path ≤ 2048
  pub path_no_return : contains cfg.path 13 ≡ false
  pub path_no_feed : contains cfg.path 10 ≡ false
  pub username_len : length cfg.username ≤ 4096
  pub password_len : length cfg.password ≤ 4096

try_from-le : (limit : ℕ) (e : ImportError) (i : ℤ) (n : ℕ) → try_from limit e i ≡ ok n → n ≤ limit
try_from-le limit e (pos m) n h = ground (arith, h)
try_from-le limit e (negsuc m) n h = cc

int_field-le :
    (v : Packed) (key : Bytes) (limit : ℕ) (e : ImportError) (n : ℕ)
    → int_field v key limit e ≡ ok n
    → n ≤ limit
int_field-le v key limit e n h =
    let a = bind-ok (get v key) _ n h in
    let b = bind-ok (as_int a.0) (try_from limit e) n a.2 in try_from-le limit e b.0 n b.2

or_false : (a b : Bool) → (a || b) ≡ false → (a ≡ false) × (b ≡ false)
or_false true b e = cc
or_false false b e = (refl, e)

if_err :
    {A : Type 0} (test : Bool) (x : ImportError) (a b : A)
    → (if test then err x else ok a) ≡ ok b
    → (test ≡ false) × (a ≡ b)
if_err true x a b e = cc
if_err false x a b e = (refl, cc e)

nonempty_length : {A : Type 0} (s : List A) → is_empty s ≡ false → 1 ≤ length s
nonempty_length [] e = cc
nonempty_length (b ∷ s) e = omega arith

is_true : (b : Bool) → not b ≡ false → b ≡ true
is_true true e = refl
is_true false e = cc

check_host-IsHost :
    (h g : RocketSmartHost)
    → h.port ≤ 65535
    → h.flag ≤ 255
    → h.delay ≤ 65535
    → check_host h ≡ ok g
    → IsHost g
check_host-IsHost h g p f d e =
    let x = if_err _ invalid_host h g e in
    let a = or_false (is_empty h.host) _ x.0 in
    let b = or_false (ltb 253 (length h.host)) _ a.1 in
    let c = or_false (any is_bad_in_host h.host) (h.port == 0) b.1 in
    subst IsHost x.1 (record {
      named = nonempty_length h.host a.0;
      name_len = ground (arith, b.0);
      name_clean = c.0;
      port_set = ground (arith, c.1);
      port_bound = p;
      flag_bound = f;
      delay_bound = d;
    })

read_host-IsHost : (v : Packed) (h : RocketSmartHost) → read_host v ≡ ok h → IsHost h
unfolding read_host
read_host-IsHost v h e =
    let a = bind-ok (str_field v (codes "0")) _ h e in
    let b = bind-ok _ _ h a.2 in
    let c = bind-ok _ _ h b.2 in
    let d = bind-ok _ _ h c.2 in
    check_host-IsHost (record { host = a.0; port = b.0; flag = c.0; delay = d.0 }) h
      (int_field-le v _ _ _ b.0 b.1) (int_field-le v _ _ _ c.0 c.1) (int_field-le v _ _ _ d.0 d.1)
      d.2

read_hosts-IsHost : (vs : Items) (hs : List RocketSmartHost) → read_hosts vs ≡ ok hs → All IsHost hs
unfolding read_hosts
read_hosts-IsHost nil hs e = subst (All IsHost) (ok_injective [] hs e) tt
read_hosts-IsHost (cons v vs) hs e =
    let a = bind-ok (read_host v) _ hs e in
    let b = bind-ok (read_hosts vs) _ hs a.2 in
    subst (All IsHost) (ok_injective (a.0 ∷ b.0) hs b.2)
      (read_host-IsHost v a.0 a.1, read_hosts-IsHost vs b.0 b.1)

-- The tests of a configuration, put together.
smart :
    (cfg : RocketSmartConfig)
    → All IsHost cfg.hosts
    → (is_empty cfg.hosts || ltb 64 (length cfg.hosts)) ≡ false
    → (not (starts_with_slash cfg.path)
        || (ltb 2048 (length cfg.path) || (contains cfg.path 13 || contains cfg.path 10)))
      ≡ false
    → (ltb 4096 (length cfg.username) || ltb 4096 (length cfg.password)) ≡ false
    → IsSmart cfg
smart cfg hs n p c =
    let some = or_false (is_empty cfg.hosts) (ltb 64 (length cfg.hosts)) n in
    let root = or_false (not (starts_with_slash cfg.path)) _ p in
    let len = or_false (ltb 2048 (length cfg.path)) _ root.1 in
    let lines = or_false (contains cfg.path 13) (contains cfg.path 10) len.1 in
    let names = or_false (ltb 4096 (length cfg.username)) (ltb 4096 (length cfg.password)) c in
    record {
      some_hosts = nonempty_length cfg.hosts some.0;
      few_hosts = ground (arith, some.1);
      are_hosts = hs;
      path_rooted = is_true (starts_with_slash cfg.path) root.0;
      path_len = ground (arith, len.0);
      path_no_return = lines.0;
      path_no_feed = lines.1;
      username_len = ground (arith, names.0);
      password_len = ground (arith, names.1);
    }

read_config-IsSmart : (v : Packed) (cfg : RocketSmartConfig) → read_config v ≡ ok cfg → IsSmart cfg
unfolding read_config
read_config-IsSmart v cfg e =
    let a = bind-ok (get v (codes "13")) _ cfg e in
    let b = bind-ok (as_int a.0) _ cfg a.2 in
    let c = then-ok (not (is_version_one b.0)) unsupported_version _ cfg b.2 in
    let d = bind-ok (get v (codes "14")) _ cfg c.1 in
    let f = bind-ok (as_array d.0) _ cfg d.2 in
    let g = bind-ok (read_hosts f.0) _ cfg f.2 in
    let h = then-ok (is_empty g.0 || ltb 64 (length g.0)) invalid_host_count _ cfg g.2 in
    let i = bind-ok (str_field v (codes "16")) _ cfg h.1 in
    let j = then-ok _ invalid_path _ cfg i.2 in
    let k = bind-ok (str_field v (codes "4")) _ cfg j.1 in
    let l = bind-ok (str_field v (codes "15")) _ cfg k.2 in
    let m =
      then-ok (ltb 4096 (length k.0) || ltb 4096 (length l.0)) credentials_too_long _ cfg l.2 in
    let out : RocketSmartConfig = record {
      username = k.0;
      password = l.0;
      path = i.0;
      hosts = g.0;
    } in
    subst IsSmart (ok_injective out cfg m.1) (smart out (read_hosts-IsHost f.0 g.0 g.1) h.0 j.0 m.0)

module _ (is_utf8 : Bytes → Bool) (inflate : Bytes → Option Bytes) (parse_url : Str → Option Url)
    (decode_standard decode_no_pad : Bytes → Option Bytes) where
  decode_unpacked-IsSmart :
      (unpacked : Bytes) (cfg : RocketSmartConfig)
      → decode_unpacked is_utf8 unpacked ≡ ok cfg
      → IsSmart cfg
  unfolding decode_unpacked
  decode_unpacked-IsSmart unpacked cfg e =
      let d =
        bind-ok (whole_value is_utf8 (read_levels is_utf8 (suc max_depth) unpacked)) _ cfg e in
      let f = bind-ok (as_array d.0) _ cfg d.2 in
      let g = bind-ok (ok_or (find_smart f.0) no_config) _ cfg f.2 in
      read_config-IsSmart g.0 cfg g.2

  decode_envelope-IsSmart :
      (encoded : Bytes) (cfg : RocketSmartConfig)
      → decode_envelope is_utf8 inflate encoded ≡ ok cfg
      → IsSmart cfg
  unfolding decode_envelope
  decode_envelope-IsSmart encoded cfg e =
      let a =
        then-ok (ltb (length encoded) 3 || ltb max_decoded_bytes (length encoded)) invalid_length _
          cfg e in
      let b = then-ok (not (get_or encoded 0 0 / 4 == 1)) unsupported_envelope _ cfg a.1 in
      let c =
        bind-ok
          (unpack is_utf8 inflate (get_or encoded 0 0 % 2 == 1) (
            when (get_or encoded 0 0 / 2 % 2 == 1) (unmask (get_or encoded 1 0) 0 (drop 2 encoded))
              (drop 2 encoded)))
          _ cfg b.1 in
      decode_unpacked-IsSmart c.0 cfg c.2

  -- A link that is accepted gives from 1 to 64 hosts, each with a name of 1 to 253 bytes without
  -- spaces, control characters or what ends a host in a URL, a port that is set, and numbers of
  -- their width; a path from the root of at most 2048 bytes on one line; and a user name and a
  -- password of at most 4096 bytes.
  pub decode_rocket_smart_link-IsSmart :
      (link : Str) (cfg : RocketSmartConfig)
      → decode_rocket_smart_link is_utf8 inflate parse_url decode_standard decode_no_pad link
        ≡ ok cfg
      → IsSmart cfg
  unfolding decode_rocket_smart_link
  decode_rocket_smart_link-IsSmart link cfg e =
      let a = then-ok (ltb max_link_bytes (str_len link)) link_too_long _ cfg e in
      let b = bind-ok (ok_or (parse_url (trim link)) invalid_url) _ cfg a.1 in
      let c = then-ok (not (is_http b.0.scheme) || not b.0.has_host) not_http _ cfg b.2 in
      let d =
        bind-ok (ok_or (nonempty (strip_prefix (codes "/i/") b.0.path)) not_smart_link) _ cfg c.1 in
      let f = bind-ok (decode_percent is_utf8 d.0) _ cfg d.2 in
      let g =
        bind-ok (ok_or (or_else (decode_standard f.0) (decode_no_pad f.0)) invalid_base64) _ cfg
          f.2 in
      decode_envelope-IsSmart g.0 cfg g.2
