-- ===== src/Prelude/Json.antt =====
-- serde_json's `Value`: a map keeps one value for each key.
use Prim.Native.Nat.{ℕ}
use mathlib.Core.Path.{◌≡◌, refl, sym, subst}
use mathlib.Core.Logic.{inl, inr}
use mathlib.Core.Bool.{Bool, false}
use mathlib.Core.Option.{Option, none, some}
use mathlib.Core.List.{List, [], ◌∷◌}
use easy_connection.Prelude.Tests.{if◌then◌else◌, Bool-cases}
use easy_connection.Prelude.Lists.{eq_bytes, eq_bytes_iff}
use easy_connection.Prelude.Text.{Str}

mutual
  pub data Value : Type 0 where
    null : Value
    bool : Bool → Value
    number : ℕ → Value
    string : Str → Value
    array : Values → Value
    object : Members → Value

  pub data Values : Type 0 where
    nil : Values
    cons : Value → Values → Values

  pub data Members : Type 0 where
    end : Members
    member : Str → Value → Members → Members

unfoldable pub find : Str → Members → Option Value
find key end = none
find key (member k v ms) = let rest = find key ms in if eq_bytes k key then some v else rest

-- `Map::insert`, and an assignment to `value[key]`.
unfoldable pub insert : Str → Value → Members → Members
insert key v end = member key v end
insert key v (member k w ms) =
    let rest = insert key v ms in if eq_bytes k key then member k v ms else member k w rest

-- `Value::get` at a key.
abbrev pub get : Str → Value → Option Value
get key (object ms) = find key ms
get key _ = none

abbrev pub as_str : Option Value → Option Str
as_str (some (string s)) = some s
as_str _ = none

abbrev pub as_number : Option Value → Option ℕ
as_number (some (number n)) = some n
as_number _ = none

abbrev pub as_bool : Option Value → Option Bool
as_bool (some (bool b)) = some b
as_bool _ = none

-- The first of an array.
abbrev pub first : Option Value → Option Value
first (some (array (cons v vs))) = some v
first _ = none

abbrev pub at : Str → Option Value → Option Value
at key none = none
at key (some v) = get key v

abbrev pub strings : List Str → Values
strings [] = nil
strings (s ∷ ss) = cons (string s) (strings ss)

pub find-insert : (k : Str) (v : Value) (ms : Members) → find k (insert k v ms) ≡ some v
unfolding find insert
find-insert k v end = simp ((eq_bytes_iff k k).1 refl) refl
find-insert k v (member l w ms) = elim (Bool-cases (eq_bytes l k)) [
  | inl e ↦ simp e refl
  | inr e ↦ simp (e, find-insert k v ms) refl
]

pub find-insert_other :
    (k j : Str) (v : Value) (ms : Members)
    → eq_bytes k j ≡ false
    → find j (insert k v ms) ≡ find j ms
unfolding find insert
find-insert_other k j v end n = simp n refl
find-insert_other k j v (member l w ms) n = elim (Bool-cases (eq_bytes l k)) [
  | inl e ↦ simp (e, subst (λ m. eq_bytes m j ≡ false) (sym ((eq_bytes_iff l k).0 e)) n) refl
  | inr e ↦ simp (e, find-insert_other k j v ms n) refl
]
