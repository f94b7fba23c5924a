-- ===== src/Config/SmartLink.antt =====
-- crates/config/src/smart_link.rs: `decode_rocket_smart_link` and what it reads from the packed
-- value. A `String` is its UTF-8 bytes. The URL parser, base64, zlib and the test for UTF-8 are
-- parameters.
pub mod Accepted
pub mod RoundTrip
use Prim.Native.Nat.{bit_xor, bit_and}
use easy_connection.Prelude.{
  ℕ, zero, suc, ◌+◌, ◌*◌, ◌/◌, ◌%◌, ◌^◌, Bool, true, false, not, ◌&&◌, ◌||◌, List, [], ◌∷◌, ◌++◌,
  ◌==◌, ltb, leb, if◌then◌else◌, length, drop, get_or, is_empty, Bytes, Option, none, some, Result,
  ok, err, ◌>>=◌, ◌>>◌, fail_if, ok_or, eq_bytes, contains,
}
use easy_connection.Prelude.Text.{Str, codes, to_digit, trim, str_len, any}
use easy_connection.Config.MessagePack.{
  ℤ, pos, negsuc, Packed, int, str, array, map, Items, nil, cons, Fields, end, field, read_levels,
  max_depth, ImportError, link_too_long, invalid_url, not_http, not_smart_link, invalid_encoding,
  not_utf8, invalid_base64, invalid_length, unsupported_envelope, invalid_compressed, too_large,
  trailing_payload, no_config, unsupported_version, invalid_port, invalid_flags, invalid_delay,
  invalid_host, invalid_host_count, invalid_path, credentials_too_long, missing_field, not_object,
  not_string, not_integer, not_array,
}

abbrev pub max_link_bytes : ℕ
max_link_bytes = 16384

abbrev pub max_decoded_bytes : ℕ
max_decoded_bytes = 1048576

abbrev pub mask : Bytes
mask = 58 ∷ 127 ∷ 178 ∷ 217 ∷ 76 ∷ 133 ∷ 225 ∷ 98 ∷ []

pub record RocketSmartHost : Type 0 where
  pub host : Bytes
  pub port : ℕ
  pub flag : ℕ
  pub delay : ℕ

pub record RocketSmartConfig : Type 0 where
  pub username : Bytes
  pub password : Bytes
  pub path : Bytes
  pub hosts : List RocketSmartHost

abbrev enabled : ℕ → RocketSmartHost → Bool → List (RocketSmartHost × Bool)
enabled bits host https = if bit_and host.flag bits == bits then (host, https) ∷ [] else []

unfoldable pub zone_hosts : List RocketSmartHost → List (RocketSmartHost × Bool)
zone_hosts [] = []
zone_hosts (h ∷ hs) = enabled 0x11 h false ++ (enabled 0x12 h true ++ zone_hosts hs)

-- The two digits behind a percent sign.
abbrev pub pair : Option ℕ → Option ℕ → Option Bytes → Option Bytes
pair (some hi) (some lo) (some out) = some ((hi * 16 + lo) ∷ out)
pair _ _ _ = none

abbrev pub onto : ℕ → Option Bytes → Option Bytes
onto b none = none
onto b (some out) = some (b ∷ out)

unfoldable pub percent_bytes : Bytes → Option Bytes
percent_bytes [] = some []
percent_bytes (b ∷ []) = if b == b'%' then none else some (b ∷ [])
percent_bytes (b ∷ c ∷ []) =
    let rest = percent_bytes (c ∷ []) in if b == b'%' then none else onto b rest
percent_bytes (b ∷ c ∷ d ∷ bs) =
    let rest = percent_bytes (c ∷ d ∷ bs) in
    let behind = percent_bytes bs in
    if b == b'%' then pair (to_digit c) (to_digit d) behind else onto b rest

-- `*byte ^= MASK[i % 8] ^ seed.wrapping_shl(i % 8)`, from an index on.
unfoldable pub unmask : ℕ → ℕ → Bytes → Bytes
unmask seed i [] = []
unmask seed i (b ∷ bs) =
    bit_xor b (bit_xor (get_or mask (i % 8) 0) (seed * 2 ^ (i % 8) % 256)) ∷ unmask seed (suc i) bs

abbrev pub Read : Type 0 → Type 0
Read A = Result A ImportError

unfoldable pub find_field : Bytes → Fields → Option Packed
find_field key end = none
find_field key (field k v es) =
    let rest = find_field key es in if eq_bytes k key then some v else rest

unfoldable pub get : Packed → Bytes → Read Packed
unfolding find_field
get (map es) key = ok_or (find_field key es) missing_field
get _ key = err not_object

abbrev pub as_str : Packed → Read Bytes
as_str (str s) = ok s
as_str _ = err not_string

abbrev pub as_int : Packed → Read ℤ
as_int (int i) = ok i
as_int _ = err not_integer

abbrev pub as_array : Packed → Read Items
as_array (array vs) = ok vs
as_array _ = err not_array

-- `u16::try_from` and `u8::try_from`, with the largest value.
abbrev pub try_from : ℕ → ImportError → ℤ → Read ℕ
try_from limit e (pos n) = if ltb limit n then err e else ok n
try_from limit e (negsuc n) = err e

-- `is_ascii_control`, `is_ascii_whitespace`, and the characters of an authority. All are ASCII, so
-- they are bytes.
abbrev pub is_bad_in_host : ℕ → Bool
is_bad_in_host c =
    ltb c 32
    || (c == 127
        || (c == 32 || (c == b'/' || (c == 92 || (c == b'@' || (c == b'?' || c == b'#'))))))

abbrev pub check_host : RocketSmartHost → Read RocketSmartHost
check_host h =
    if is_empty h.host || (ltb 253 (length h.host) || (any is_bad_in_host h.host || h.port == 0))
    then err invalid_host
    else ok h

-- The number of a field.
abbrev pub int_field : Packed → Bytes → ℕ → ImportError → Read ℕ
int_field v key limit e = do f ← get v key; i ← as_int f; try_from limit e i

abbrev pub str_field : Packed → Bytes → Read Bytes
str_field v key = do f ← get v key; as_str f

unfoldable pub read_host : Packed → Read RocketSmartHost
read_host v = do
  name ← str_field v (codes "0")
  port ← int_field v (codes "1") 65535 invalid_port
  flag ← int_field v (codes "2") 255 invalid_flags
  delay ← int_field v (codes "3") 65535 invalid_delay
  check_host (record { host = name; port = port; flag = flag; delay = delay })

-- `map` and `collect`.
unfoldable pub read_hosts : Items → Read (List RocketSmartHost)
unfolding read_host
read_hosts nil = ok []
read_hosts (cons v vs) = do h ← read_host v; hs ← read_hosts vs; ok (h ∷ hs)

-- The test of `find`.
abbrev pub says_smart : Read Bytes → Bool
says_smart (ok s) = eq_bytes s (codes "smart")
says_smart (err e) = false

unfoldable pub find_smart : Items → Option Packed
find_smart nil = none
find_smart (cons v vs) =
    let rest = find_smart vs in if says_smart (str_field v (codes "0")) then some v else rest

abbrev pub is_version_one : ℤ → Bool
is_version_one (pos n) = n == 1
is_version_one (negsuc n) = false

abbrev pub starts_with_slash : Bytes → Bool
starts_with_slash [] = false
starts_with_slash (b ∷ _) = b == b'/'

unfoldable pub read_config : Packed → Read RocketSmartConfig
unfolding read_hosts
read_config config = do
  v ← get config (codes "13")
  version ← as_int v
  fail_if (not (is_version_one version)) unsupported_version
  list ← get config (codes "14")
  hosts_packed ← as_array list
  hosts ← read_hosts hosts_packed
  fail_if (is_empty hosts || ltb 64 (length hosts)) invalid_host_count
  path ← str_field config (codes "16")
  fail_if
      (not (starts_with_slash path)
        || (ltb 2048 (length path) || (contains path 13 || contains path 10)))
      invalid_path
  username ← str_field config (codes "4")
  password ← str_field config (codes "15")
  fail_if (ltb 4096 (length username) || ltb 4096 (length password)) credentials_too_long
  ok (record { username = username; password = password; path = path; hosts = hosts })

-- What `Url::parse` reads of a link: its scheme, whether it has a host, and its path.
pub record Url : Type 0 where
  pub scheme : Bytes
  pub has_host : Bool
  pub path : Bytes

abbrev pub strip_prefix : Bytes → Bytes → Option Bytes
strip_prefix [] s = some s
strip_prefix (p ∷ ps) [] = none
strip_prefix (p ∷ ps) (b ∷ s) = let rest = strip_prefix ps s in if p == b then rest else none

abbrev pub nonempty : Option Bytes → Option Bytes
nonempty (some (b ∷ bs)) = some (b ∷ bs)
nonempty _ = none

abbrev pub is_http : Bytes → Bool
is_http s = eq_bytes s (codes "http") || eq_bytes s (codes "https")

abbrev pub or_else : Option Bytes → Option Bytes → Option Bytes
or_else none b = b
or_else (some a) b = some a

abbrev pub when : Bool → Bytes → Bytes → Bytes
when b x y = if b then x else y

module _ (is_utf8 : Bytes → Bool) where
  unfoldable pub decode_percent : Bytes → Read Bytes
  decode_percent token = do
    out ← ok_or (percent_bytes token) invalid_encoding
    fail_if (not (is_utf8 out)) not_utf8
    ok out

  abbrev pub whole_value : Read (Packed × Bytes) → Read Packed
  whole_value (err e) = err e
  whole_value (ok (v, [])) = ok v
  whole_value (ok (v, b ∷ bs)) = err trailing_payload

  -- From the parser on.
  unfoldable pub decode_unpacked : Bytes → Read RocketSmartConfig
  unfolding find_smart
  decode_unpacked unpacked = do
    root ← whole_value (read_levels is_utf8 (suc max_depth) unpacked)
    configs ← as_array root
    config ← ok_or (find_smart configs) no_config
    read_config config

  -- `inflate` gives what a reader of zlib gives that stops behind `max_decoded_bytes + 1` bytes.
  module _ (inflate : Bytes → Option Bytes) where
    unfoldable pub unpack : Bool → Bytes → Read Bytes
    unpack false packed = ok packed
    unpack true packed = do
      out ← ok_or (inflate packed) invalid_compressed
      fail_if (ltb max_decoded_bytes (length out)) too_large
      ok out

    -- From the envelope on: a byte of flags, the seed of the mask, and the payload.
    unfoldable pub decode_envelope : Bytes → Read RocketSmartConfig
    unfolding unpack
    decode_envelope encoded = do
      fail_if (ltb (length encoded) 3 || ltb max_decoded_bytes (length encoded)) invalid_length
      let flags = get_or encoded 0 0
      let seed = get_or encoded 1 0
      fail_if (not (flags / 4 == 1)) unsupported_envelope
      let packed = when (flags / 2 % 2 == 1) (unmask seed 0 (drop 2 encoded)) (drop 2 encoded)
      unpacked ← unpack (flags % 2 == 1) packed
      decode_unpacked unpacked

    module _ (parse_url : Str → Option Url)
        (decode_standard decode_no_pad : Bytes → Option Bytes) where
      unfoldable pub decode_rocket_smart_link : Str → Read RocketSmartConfig
      decode_rocket_smart_link link = do
        fail_if (ltb max_link_bytes (str_len link)) link_too_long
        url ← ok_or (parse_url (trim link)) invalid_url
        fail_if (not (is_http url.scheme) || not url.has_host) not_http
        path ← ok_or (nonempty (strip_prefix (codes "/i/") url.path)) not_smart_link
        token ← decode_percent path
        encoded ← ok_or (or_else (decode_standard token) (decode_no_pad token)) invalid_base64
        decode_envelope encoded
