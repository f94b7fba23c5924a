-- ===== src/Ssh/Zones/Welcome.antt =====
-- crates/ssh/src/zones.rs: the zones that a welcome text names.
use easy_connection.Prelude.{
  Bool, false, ◌||◌, Option, none, some, List, [], ◌∷◌, ◌++◌, ◌==◌, if◌then◌else◌, is_some,
  eq_bytes, unwrap_or,
}
use easy_connection.Prelude.Text.{Str, codes, trim, join, lines}
use easy_connection.Websocket.Upgrade.{words}
use easy_connection.Ssh.Zones.{
  ZoneInfo, iso_from_flag, text_if_any, or, cut_two, and_then, iso_if_code,
}

-- The flag and the name behind the id of a welcome line.
abbrev pub flag_and_name : List Str → Option Str × Str
flag_and_name [] = (none, [])
flag_and_name (token ∷ parts) =
    if is_some (iso_from_flag token)
    then (iso_from_flag token, join (codes " ") parts)
    else (none, join (codes " ") (token ∷ parts))

abbrev pub first_part : Option (Str × Str) → Option Str
first_part none = none
first_part (some p) = some p.0

abbrev pub welcome_zone : List Str → Option ZoneInfo
welcome_zone [] = none
welcome_zone (id ∷ parts) = some (record {
  id = id;
  name = unwrap_or (text_if_any (flag_and_name parts).1) id;
  iso = or (flag_and_name parts).0 (and_then (first_part (cut_two id)) iso_if_code);
})

-- `strip_prefix`.
unfoldable pub after_prefix : Str → Str → Option Str
after_prefix [] s = some s
after_prefix (p ∷ ps) [] = none
after_prefix (p ∷ ps) (c ∷ s) = let rest = after_prefix ps s in if p == c then rest else none

abbrev pub welcome_of : Option Str → Option ZoneInfo
welcome_of none = none
welcome_of (some rest) = welcome_zone (words rest)

unfoldable pub has_id : Str → List ZoneInfo → Bool
has_id id [] = false
has_id id (z ∷ zs) = eq_bytes z.id id || has_id id zs

abbrev pub push_new : Option ZoneInfo → List ZoneInfo → List ZoneInfo
push_new none zones = zones
push_new (some z) zones = if has_id z.id zones then zones else zones ++ (z ∷ [])

unfoldable pub welcome_lines : List Str → List ZoneInfo → List ZoneInfo
unfolding after_prefix words has_id iso_from_flag iso_if_code cut_two
welcome_lines [] zones = zones
welcome_lines (l ∷ ls) zones =
    welcome_lines ls (push_new (welcome_of (after_prefix (codes "Welcome to ") (trim l))) zones)

unfoldable pub zones_from_welcome : Str → List ZoneInfo
unfolding welcome_lines lines
zones_from_welcome text = welcome_lines (lines text) []
