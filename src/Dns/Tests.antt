-- ===== src/Dns/Tests.antt =====
-- The theorems about DNS at concrete messages.
use mathlib.Core.List.{Memᴰ}
use easy_connection.Prelude.{
  ℕ, List, ◌+◌, ◌-◌, ◌<◌, ◌≤◌, ◌≡◌, refl, arith, All, some, [], ◌∷◌, ◌++◌, length, take, drop,
  Bytes, replicate,
}
use easy_connection.Prelude.Assoc.{get, insert}
use easy_connection.Prelude.Text.{codes, split, trim, trim_end_matches, utf8}
use easy_connection.Dns.Cache.{
  default_ttl, max_entries, Bytes-discrete, CacheMap, new, lookup, put, Call, asked, stored, after,
}
use easy_connection.Dns.Cache.Answers.{since, length-after, lookup-put, lookup_sound}
use easy_connection.Dns.Query.{labels_of, carried, carried_bounds}

-- Queries that differ in their ids alone, and a response.
abbrev first_query : Bytes
first_query = 0x12 ∷ 0x34 ∷ replicate 10 7

abbrev second_query : Bytes
second_query = 0x56 ∷ 0x78 ∷ replicate 10 7

abbrev response : Bytes
response = 0x12 ∷ 0x34 ∷ replicate 11 9

length-after_example : length (after (stored 5 first_query response ∷ [])) ≤ max_entries
length-after_example = length-after (stored 5 first_query response ∷ [])

abbrev history : List Call
history = stored 5 first_query response ∷ []

-- A query for another name, stored and asked in between.
abbrev other_query : Bytes
other_query = 0x9a ∷ 0xbc ∷ replicate 10 8

abbrev between : List Call
between = asked 8 second_query ∷ stored 7 other_query response ∷ []

one_entry : length (put 5 first_query response new) ≡ 1
unfolding put insert
one_entry = refl

room_for_two : length (put 5 first_query response new) + 2 ≤ max_entries
room_for_two = omega (arith, one_entry)

room_for_none : length (put 5 first_query response new) + 0 ≤ max_entries
room_for_none = omega (arith, one_entry)

lookup-put_example :
    (lookup 9 second_query (since between (put 5 first_query response new))).0
    ≡ some (take 2 second_query ++ drop 2 response)
lookup-put_example =
    lookup-put 5 9 first_query second_query response new between (omega arith) (omega arith) refl
      (omega arith) (omega arith) (omega arith, (λ e. absurd (ground (arith, e)), tt)) room_for_two

abbrev aged : CacheMap
aged = (drop 2 first_query, (5, response)) ∷ []

aged_entry : get Bytes-discrete (drop 2 first_query) aged ≡ some (5, response)
unfolding get
aged_entry = ground arith

history_answer :
    (lookup 9 second_query (after history)).0 ≡ some (take 2 second_query ++ drop 2 response)
history_answer =
    lookup-put 5 9 first_query second_query response new [] (omega arith) (omega arith) refl
      (omega arith) (omega arith) tt room_for_none

lookup_sound_example :
    (at : ℕ) × (body : Bytes) × (original : Bytes) × Memᴰ (stored at original body) history
    × (drop 2 original ≡ drop 2 second_query)
    × (9 - at ≤ default_ttl)
    × (take 2 second_query ++ drop 2 response ≡ take 2 second_query ++ drop 2 body)
lookup_sound_example =
    lookup_sound history 9 second_query (take 2 second_query ++ drop 2 response) history_answer

-- The labels that the test reads are those of the name.
carried_example_labels : carried (labels_of (codes "a.bc.")) ≡ codes "a" ∷ codes "bc" ∷ []
unfolding split trim trim_end_matches utf8
carried_example_labels = refl

carried_bounds_example :
    All (λ l. (0 < length l) × (length l ≤ 63)) (carried (codes "a" ∷ [] ∷ codes "bc" ∷ []))
carried_bounds_example = carried_bounds (codes "a" ∷ [] ∷ codes "bc" ∷ [])
