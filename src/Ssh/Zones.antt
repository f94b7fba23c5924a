-- ===== src/Ssh/Zones.antt =====
-- crates/ssh/src/zones.rs: the list of zones, from a JSON answer or a welcome text. What
-- `serde_json::from_slice` reads is a parameter.
pub mod Listed
pub mod Welcome
use easy_connection.Prelude.{
  ℕ, ◌+◌, ◌-◌, Bool, true, false, not, ◌&&◌, ◌||◌, Option, none, some, List, [], ◌∷◌, ◌++◌, map,
  ◌==◌, ltb, if◌then◌else◌, is_empty, is_some, length, Bytes, eq_bytes, unwrap_or, Result, ok, err,
  ◌>>=◌, ◌>>◌, fail_if, ok_or,
}
use easy_connection.Prelude.Text.{Str, codes, within, utf8_char, trim, all, join, lines}
use easy_connection.Prelude.Json.{
  Value, string, array, object, Values, nil, cons, Members, find, as_str, at,
}
use easy_connection.Websocket.Upgrade.{words}

-- `SshError::Zones`, by its text; `panicked` is no error, the task is gone.
pub data ZonesError : Type 0 where
  could_not_load zone_io too_large no_zones not_a_zone_host panicked : ZonesError
  load_status config_status : ℕ → ZonesError

pub record ZoneInfo : Type 0 where
  pub id : Str
  pub name : Str
  pub iso : Option Str

pub record ZoneList : Type 0 where
  pub hash : Option Str
  pub zones : List ZoneInfo
  pub https : Bool

-- `get(..2)` and `get(2..)`: none inside of a character.
unfoldable pub cut_two : Str → Option (Str × Str)
cut_two [] = none
cut_two (c ∷ []) = if length (utf8_char c) == 2 then some (c ∷ [], []) else none
cut_two (c ∷ d ∷ s) =
    if length (utf8_char c) == 2
    then some (c ∷ [], d ∷ s)
    else if length (utf8_char c) == 1 && length (utf8_char d) == 1
    then some (c ∷ d ∷ [], s)
    else none

abbrev pub ascii_upper : ℕ → ℕ
ascii_upper c = if within b'a' b'z' c then c - 32 else c

abbrev pub is_letter : ℕ → Bool
is_letter c = within b'A' b'Z' c || within b'a' b'z' c

-- Two bytes, of which each is a letter.
abbrev pub code_of : Str → Option Str
code_of (a ∷ b ∷ []) = if is_letter a && is_letter b then some (a ∷ b ∷ []) else none
code_of _ = none

unfoldable pub iso_if_code : Str → Option Str
unfolding trim
iso_if_code value = code_of (map ascii_upper (trim value))

abbrev pub starts_digit : Str → Bool
starts_digit [] = false
starts_digit (c ∷ _) = within b'0' b'9' c

abbrev pub british : Str → Str
british iso = if eq_bytes iso (codes "UK") then codes "GB" else iso

abbrev pub map_some : {A B : Type 0} → (A → B) → Option A → Option B
map_some f none = none
map_some f (some a) = some (f a)

abbrev pub iso_of_parts : Option (Str × Str) → Option Str
iso_of_parts none = none
iso_of_parts (some (prefix, suffix)) =
    if not (is_empty suffix) && not (starts_digit suffix)
    then none
    else map_some british (iso_if_code prefix)

unfoldable pub iso_from_zone_id : Str → Option Str
unfolding cut_two iso_if_code
iso_from_zone_id id = iso_of_parts (cut_two id)

abbrev pub is_regional : ℕ → Bool
is_regional c = within 0x1f1e6 0x1f1ff c

-- Two regional indicators.
unfoldable pub iso_from_flag : Str → Option Str
iso_from_flag (a ∷ b ∷ []) =
    if is_regional a && is_regional b
    then some ((b'A' + (a - 0x1f1e6)) ∷ (b'A' + (b - 0x1f1e6)) ∷ [])
    else none
iso_from_flag _ = none

-- The `Some` of a text that is not empty.
abbrev pub text_if_any : Str → Option Str
text_if_any [] = none
text_if_any (c ∷ s) = some (c ∷ s)

abbrev pub or : {A : Type 0} → Option A → Option A → Option A
or none b = b
or (some a) b = some a

abbrev pub trimmed : Option Str → Option Str
trimmed none = none
trimmed (some s) = text_if_any (trim s)

unfoldable pub first_str : Members → List Str → Option Str
first_str obj [] = none
first_str obj (key ∷ keys) =
    let rest = first_str obj keys in or (trimmed (as_str (find key obj))) rest

abbrev pub id_keys : List Str
id_keys =
    codes "id"
    ∷ codes "zone.id"
    ∷ codes "code"
    ∷ codes "iso"
    ∷ codes "isoCode"
    ∷ codes "country"
    ∷ []

abbrev pub name_keys : List Str
name_keys =
    codes "name"
    ∷ codes "friendlyCountryName"
    ∷ codes "countryName"
    ∷ codes "title"
    ∷ codes "label"
    ∷ codes "country"
    ∷ []

abbrev pub iso_keys : List Str
iso_keys =
    codes "iso"
    ∷ codes "isoCode"
    ∷ codes "code"
    ∷ codes "country"
    ∷ codes "countryCode"
    ∷ codes "country_iso"
    ∷ codes "country_code"
    ∷ []

abbrev pub and_then : Option Str → (Str → Option Str) → Option Str
and_then none f = none
and_then (some s) f = f s

abbrev pub named_zone : Str → ZoneInfo
named_zone id = record { id = id; name = id; iso = iso_from_zone_id id }

abbrev pub zone_of : Members → Str → ZoneInfo
zone_of obj id = record {
  id = id;
  name = unwrap_or (first_str obj name_keys) id;
  iso = or (and_then (first_str obj iso_keys) iso_if_code) (iso_from_zone_id id);
}

unfoldable pub parse_zone_item : Value → Option ZoneInfo
unfolding first_str iso_if_code iso_from_zone_id
parse_zone_item (string s) = map_some named_zone (text_if_any (trim s))
parse_zone_item (object obj) = map_some (zone_of obj) (first_str obj id_keys)
parse_zone_item _ = none

abbrev pub onto : {A : Type 0} → Option A → List A → List A
onto none rest = rest
onto (some a) rest = a ∷ rest

unfoldable pub parse_items : Values → List ZoneInfo
unfolding parse_zone_item
parse_items nil = []
parse_items (cons v vs) = onto (parse_zone_item v) (parse_items vs)

abbrev pub as_object : Value → Option Members
as_object (object ms) = some ms
as_object _ = none

abbrev pub array_in : Value → Option Values
array_in (array vs) = some vs
array_in _ = none

abbrev pub no_items : Values → Bool
no_items nil = true
no_items (cons v vs) = false

unfoldable pub is_ssh_banner : Bytes → Bool
unfolding eq_bytes
is_ssh_banner (a ∷ b ∷ c ∷ d ∷ rest) = eq_bytes (a ∷ b ∷ c ∷ d ∷ []) (codes "SSH-")
is_ssh_banner _ = false

-- The items of the list, of which some are skipped.
unfoldable pub with_zones : Option Str → Values → Result ZoneList ZonesError
unfolding parse_items
with_zones hash items = do
  fail_if (no_items items) no_zones
  fail_if (is_empty (parse_items items)) no_zones
  ok (record { hash = hash; zones = parse_items items; https = false })

abbrev pub hash_in : Members → Option Str
hash_in root =
    or (as_str (find (codes "hash") root))
      (as_str (at (codes "hash") (find (codes "response") root)))

abbrev pub zones_in : Members → Option Value
zones_in root = or (find (codes "zones") root) (at (codes "zones") (find (codes "response") root))

unfoldable pub read_zones : Option Str → Value → Result ZoneList ZonesError
unfolding with_zones
read_zones hash zones_value = do
  items ← ok_or (array_in zones_value) no_zones
  with_zones hash items

unfoldable pub read_root : Members → Result ZoneList ZonesError
unfolding read_zones find
read_root root = do
  zones_value ← ok_or (zones_in root) no_zones
  read_zones (hash_in root) zones_value

unfoldable pub read_value : Value → Result ZoneList ZonesError
unfolding read_root
read_value value = do root ← ok_or (as_object value) could_not_load; read_root root

module _ (from_slice : Bytes → Option Value) where
  unfoldable pub parse_zone_list : Bytes → Result ZoneList ZonesError
  unfolding is_ssh_banner read_value
  parse_zone_list body = do
    fail_if (is_ssh_banner body) could_not_load
    value ← ok_or (from_slice body) could_not_load
    read_value value
