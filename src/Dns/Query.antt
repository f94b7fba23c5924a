-- ===== src/Dns/Query.antt =====
-- crates/dns/src/lib.rs, `encode_query_a`: an A question for a name (RFC 1035).
use easy_connection.Prelude.{
  ℕ, zero, suc, ◌<◌, ◌≤◌, ◌≡◌, refl, ap, All, arith, min, Option, none, some, List, [], ◌∷◌, ◌++◌,
  ltb, ◌==◌, if◌then◌else◌, length, take, drop, is_empty, Bytes, u16_to_be, take-append,
  drop-append, length-append, append_assoc, length-take,
}
use mathlib.Core.Path.{ap₂}
use easy_connection.Prelude.Text.{Str, utf8, trim, trim_end_matches, split}

-- One label: its length and its bytes, at most 63 of them.
unfoldable pub encode_label : Str → Bytes
encode_label label = let n = min (length (utf8 label)) 63 in n ∷ take n (utf8 label)

unfoldable pub encode_labels : List Str → Bytes
encode_labels [] = []
encode_labels (label ∷ labels) =
    let rest = encode_labels labels in if is_empty label then rest else encode_label label ++ rest

-- The labels that the loop goes through.
abbrev pub labels_of : Str → List Str
labels_of name = split b'.' (trim_end_matches (λ c. c == b'.') (trim name))

abbrev pub query_header : ℕ → Bytes
query_header id =
    u16_to_be id ++ (0x01 ∷ 0x00 ∷ 0x00 ∷ 0x01 ∷ 0x00 ∷ 0x00 ∷ 0x00 ∷ 0x00 ∷ 0x00 ∷ 0x00 ∷ [])

unfoldable pub encode_query_a : Str → ℕ → Bytes
unfolding encode_labels encode_label
encode_query_a name id =
    query_header id ++ (encode_labels (labels_of name) ++ (0 ∷ 0x00 ∷ 0x01 ∷ 0x00 ∷ 0x01 ∷ []))

-- A name as a server reads it (RFC 1035, 3.1): labels up to one of length 0.
unfoldable pub read_name : ℕ → Bytes → Option (List Bytes × Bytes)
read_name zero b = none
read_name (suc fuel) [] = none
read_name (suc fuel) (n ∷ rest) =
    let later = read_name fuel (drop n rest) in
    if n == 0
    then some ([], rest)
    else if ltb (length rest) n
    then none
    else elim later [ none ↦ none | some (labels, left) ↦ some (take n rest ∷ labels, left) ]

-- The labels that a question carries: the ones that are not empty, cut to 63 bytes.
abbrev pub carried : List Str → List Bytes
carried [] = []
carried (label ∷ labels) =
    let rest = carried labels in if is_empty label then rest else take 63 (utf8 label) ∷ rest

utf8_pos : (c : ℕ) (s : Str) → 0 < length (utf8 (c ∷ s))
unfolding utf8
utf8_pos c s = ground arith

read_name_label :
    (fuel : ℕ) (l rest left : Bytes) (labels : List Bytes)
    → 0 < length l
    → read_name fuel rest ≡ some (labels, left)
    → read_name (suc fuel) (length l ∷ (l ++ rest)) ≡ some (l ∷ labels, left)
unfolding read_name
read_name_label fuel l rest left labels p e =
    ground (arith, take-append l rest, drop-append l rest, length-append l rest)

take-min : (n : ℕ) (b : Bytes) → take (min (length b) n) b ≡ take n b
take-min zero [] = refl
take-min zero (x ∷ b) = let e : min (suc (length b)) 0 ≡ 0 = omega arith in rw e
take-min (suc n) [] = let e : min 0 (suc n) ≡ 0 = omega arith in rw e
take-min (suc n) (x ∷ b) =
    let e : min (suc (length b)) (suc n) ≡ suc (min (length b) n) = omega arith in
    rw e (ap (◌∷◌ x) (take-min n b))

-- A label is its length and its bytes, cut to 63.
encode_label-take :
    (label : Str) → encode_label label ≡ length (take 63 (utf8 label)) ∷ take 63 (utf8 label)
unfolding encode_label
encode_label-take label =
    let e : min (length (utf8 label)) 63 ≡ length (take 63 (utf8 label)) =
      omega (arith, length-take 63 (utf8 label)) in
    ap₂ (◌∷◌) e (take-min 63 (utf8 label))

read_name-encode_labels :
    (labels : List Str) (rest : Bytes) (fuel : ℕ)
    → length (carried labels) < fuel
    → read_name fuel (encode_labels labels ++ (0 ∷ rest)) ≡ some (carried labels, rest)
unfolding encode_labels
read_name-encode_labels labels rest zero h = absurd (omega arith)
read_name-encode_labels [] rest (suc fuel) h = unfold read_name in refl
read_name-encode_labels ([] ∷ labels) rest (suc fuel) h =
    read_name-encode_labels labels rest (suc fuel) h
read_name-encode_labels ((c ∷ s) ∷ labels) rest (suc fuel) h =
    let l = take 63 (utf8 (c ∷ s)) in
    let later = encode_labels labels ++ (0 ∷ rest) in
    rw (append_assoc, encode_label-take (c ∷ s))
      (read_name_label fuel l later rest (carried labels)
        (omega (arith, utf8_pos c s, length-take 63 (utf8 (c ∷ s))))
        (read_name-encode_labels labels rest fuel (omega arith)))

-- What a resolver reads from the query: the id and the flag for recursion, one question, and in it
-- the labels of the name that are not empty, each cut to 63 bytes, then the type A and the class IN.
pub encode_query_a-read_name :
    (name : Str) (id : ℕ)
    → (take 12 (encode_query_a name id) ≡ query_header id)
      × (read_name (suc (length (carried (labels_of name)))) (drop 12 (encode_query_a name id))
          ≡ some (carried (labels_of name), 0x00 ∷ 0x01 ∷ 0x00 ∷ 0x01 ∷ []))
unfolding encode_query_a
encode_query_a-read_name name id =
    (refl, read_name-encode_labels (labels_of name) _ _ (omega arith))

-- No label of a query is longer than 63 bytes, and none is empty.
pub carried_bounds :
    (labels : List Str) → All (λ l. (0 < length l) × (length l ≤ 63)) (carried labels)
carried_bounds [] = tt
carried_bounds ([] ∷ labels) = carried_bounds labels
carried_bounds ((c ∷ s) ∷ labels) = (
  (
    omega (arith, utf8_pos c s, length-take 63 (utf8 (c ∷ s))),
    omega (arith, length-take 63 (utf8 (c ∷ s))),
  ),
  carried_bounds labels,
)
