-- ===== src/Ssh/Zones/Listed.antt =====
-- What a list of zones can be relied on for.
use mathlib.Core.Path.{subst}
use easy_connection.Prelude.{
  ◌≤◌, ◌≡◌, refl, arith, false, not, ◌&&◌, Option, none, some, List, [], ◌∷◌, map, is_empty, Bytes,
  eq_bytes, unwrap_or, ok, All, Bool-cases, inl, inr, fail_if, ◌>>=◌, ◌>>◌, bind-ok, then-ok, ok_or,
  ok_injective,
}
use easy_connection.Prelude.Text.{Str, codes, trim}
use easy_connection.Prelude.Json.{
  Value, null, bool, number, string, array, object, Values, nil, cons, Members, find, as_str,
}
use easy_connection.Ssh.Zones.{
  starts_digit, could_not_load, no_zones, ZoneInfo, ZoneList, ascii_upper, is_letter, code_of,
  iso_if_code, british, map_some, iso_of_parts, cut_two, iso_from_zone_id, text_if_any, or, trimmed,
  first_str, name_keys, iso_keys, id_keys, and_then, with_zones, read_zones, read_root, read_value,
  hash_in, zones_in, named_zone, zone_of, parse_zone_item, onto, parse_items, as_object, array_in,
  no_items, is_ssh_banner, parse_zone_list,
}

abbrev pub Holds : {A : Type 0} → (A → Type 0) → Option A → Type 0
Holds P none = Unit {0}
Holds P (some a) = P a

-- Two capital letters.
abbrev pub IsIso : Str → Type 0
IsIso (a ∷ b ∷ []) = (65 ≤ a) × (a ≤ 90) × (65 ≤ b) × (b ≤ 90)
IsIso _ = ⊥

abbrev pub IsText : Str → Type 0
IsText [] = ⊥
IsText (c ∷ s) = Unit {0}

pub record IsZone (z : ZoneInfo) : Type 0 where
  pub has_id : IsText z.id
  pub has_name : IsText z.name
  pub iso_letters : Holds IsIso z.iso

code_of-IsIso : (s : Str) → Holds IsIso (code_of (map ascii_upper s))
code_of-IsIso [] = tt
code_of-IsIso (a ∷ []) = tt
code_of-IsIso (a ∷ b ∷ []) =
    elim (Bool-cases (is_letter (ascii_upper a) && is_letter (ascii_upper b))) [
      | inl e ↦ simp e (ground arith)
      | inr e ↦ simp e tt
    ]
code_of-IsIso (a ∷ b ∷ c ∷ s) = tt

iso_if_code-IsIso : (s : Str) → Holds IsIso (iso_if_code s)
unfolding iso_if_code
iso_if_code-IsIso s = code_of-IsIso (trim s)

british-IsIso : (s : Str) → IsIso s → IsIso (british s)
british-IsIso s h = elim (Bool-cases (eq_bytes s (codes "UK"))) [
  | inl e ↦ simp e (omega arith)
  | inr e ↦ simp e h
]

map-british : (o : Option Str) → Holds IsIso o → Holds IsIso (map_some british o)
map-british none h = tt
map-british (some s) h = british-IsIso s h

iso_of_parts-IsIso : (p : Option (Str × Str)) → Holds IsIso (iso_of_parts p)
iso_of_parts-IsIso none = tt
iso_of_parts-IsIso (some (prefix, suffix)) =
    elim (Bool-cases (not (is_empty suffix) && not (starts_digit suffix))) [
      | inl e ↦ simp e tt
      | inr e ↦ simp e (map-british (iso_if_code prefix) (iso_if_code-IsIso prefix))
    ]

or-Holds : (a b : Option Str) → Holds IsIso a → Holds IsIso b → Holds IsIso (or a b)
or-Holds none b h k = k
or-Holds (some s) b h k = h

and_then-IsIso : (o : Option Str) → Holds IsIso (and_then o iso_if_code)
and_then-IsIso none = tt
and_then-IsIso (some s) = iso_if_code-IsIso s

text_if_any-IsText : (s : Str) → Holds IsText (text_if_any s)
text_if_any-IsText [] = tt
text_if_any-IsText (c ∷ s) = tt

trimmed-IsText : (o : Option Str) → Holds IsText (trimmed o)
trimmed-IsText none = tt
trimmed-IsText (some s) = text_if_any-IsText (trim s)

or-IsText : (a b : Option Str) → Holds IsText a → Holds IsText b → Holds IsText (or a b)
or-IsText none b h k = k
or-IsText (some s) b h k = h

first_str-IsText : (obj : Members) (keys : List Str) → Holds IsText (first_str obj keys)
unfolding first_str
first_str-IsText obj [] = tt
first_str-IsText obj (key ∷ keys) =
    or-IsText (trimmed (as_str (find key obj))) (first_str obj keys)
      (trimmed-IsText (as_str (find key obj))) (first_str-IsText obj keys)

iso_from_zone_id-IsIso : (id : Str) → Holds IsIso (iso_from_zone_id id)
unfolding iso_from_zone_id
iso_from_zone_id-IsIso id = iso_of_parts-IsIso (cut_two id)

unwrap_or-IsText : (o : Option Str) (d : Str) → Holds IsText o → IsText d → IsText (unwrap_or o d)
unwrap_or-IsText none d h k = k
unwrap_or-IsText (some s) d h k = h

named_zone-IsZone : (o : Option Str) → Holds IsText o → Holds IsZone (map_some named_zone o)
named_zone-IsZone none h = tt
named_zone-IsZone (some id) h = record {
  has_id = h;
  has_name = h;
  iso_letters = iso_from_zone_id-IsIso id;
}

zone_of-IsZone :
    (obj : Members) (o : Option Str) → Holds IsText o → Holds IsZone (map_some (zone_of obj) o)
zone_of-IsZone obj none h = tt
zone_of-IsZone obj (some id) h = record {
  has_id = h;
  has_name = unwrap_or-IsText (first_str obj name_keys) id (first_str-IsText obj name_keys) h;
  iso_letters =
      or-Holds (and_then (first_str obj iso_keys) iso_if_code) (iso_from_zone_id id)
        (and_then-IsIso (first_str obj iso_keys)) (iso_from_zone_id-IsIso id);
}

parse_zone_item-IsZone : (v : Value) → Holds IsZone (parse_zone_item v)
unfolding parse_zone_item
parse_zone_item-IsZone null = tt
parse_zone_item-IsZone (bool b) = tt
parse_zone_item-IsZone (number n) = tt
parse_zone_item-IsZone (array vs) = tt
parse_zone_item-IsZone (string s) =
    named_zone-IsZone (text_if_any (trim s)) (text_if_any-IsText (trim s))
parse_zone_item-IsZone (object obj) =
    zone_of-IsZone obj (first_str obj id_keys) (first_str-IsText obj id_keys)

onto-All :
    (o : Option ZoneInfo) (zs : List ZoneInfo)
    → Holds IsZone o
    → All IsZone zs
    → All IsZone (onto o zs)
onto-All none zs h hs = hs
onto-All (some z) zs h hs = (h, hs)

parse_items-AreZones : (vs : Values) → All IsZone (parse_items vs)
unfolding parse_items
parse_items-AreZones nil = tt
parse_items-AreZones (cons v vs) =
    onto-All (parse_zone_item v) (parse_items vs) (parse_zone_item-IsZone v)
      (parse_items-AreZones vs)

-- What the caller of `parse_zone_list` is given.
pub record IsZoneList (l : ZoneList) : Type 0 where
  pub some_zones : is_empty l.zones ≡ false
  pub are_zones : All IsZone l.zones
  pub not_https : l.https ≡ false

with_zones-IsZoneList :
    (hash : Option Str) (items : Values) (list : ZoneList)
    → with_zones hash items ≡ ok list
    → IsZoneList list
unfolding with_zones
with_zones-IsZoneList hash items list e =
    let made : ZoneList = record { hash = hash; zones = parse_items items; https = false } in
    let kept = fail_if (is_empty (parse_items items)) no_zones >> ok made in
    let asked = then-ok (no_items items) no_zones kept list e in
    let done = then-ok (is_empty (parse_items items)) no_zones (ok made) list asked.1 in
    subst IsZoneList (ok_injective made list done.1)
      (record { some_zones = done.0; are_zones = parse_items-AreZones items; not_https = refl })

read_value-IsZoneList :
    (value : Value) (list : ZoneList) → read_value value ≡ ok list → IsZoneList list
unfolding read_value read_root read_zones
read_value-IsZoneList value list e =
    let (root, _, held) = bind-ok (ok_or (as_object value) could_not_load) read_root list e in
    let (found, _, listed) =
      bind-ok (ok_or (zones_in root) no_zones) (read_zones (hash_in root)) list held in
    let (items, _, kept) =
      bind-ok (ok_or (array_in found) no_zones) (with_zones (hash_in root)) list listed in
    with_zones-IsZoneList (hash_in root) items list kept

module _ (from_slice : Bytes → Option Value) where
  -- A list that is accepted has a zone, every zone has an id and a name that are not
  -- empty, and its country, where it has one, is two capital letters. The body is not the
  -- banner of an SSH server.
  pub parse_zone_list-IsZoneList :
      (body : Bytes) (list : ZoneList)
      → parse_zone_list from_slice body ≡ ok list
      → (is_ssh_banner body ≡ false) × IsZoneList list
  unfolding parse_zone_list
  parse_zone_list-IsZoneList body list e =
      let read =
        then-ok (is_ssh_banner body) could_not_load
          (ok_or (from_slice body) could_not_load >>= read_value) list e in
      let (value, _, held) =
        bind-ok (ok_or (from_slice body) could_not_load) read_value list read.1 in
      (read.0, read_value-IsZoneList value list held)
