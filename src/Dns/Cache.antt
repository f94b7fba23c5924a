-- ===== src/Dns/Cache.antt =====
-- crates/dns/src/cache.rs. An instant is a number of nanoseconds; the clock is read by the caller.
pub mod Answers
use native.Mathlib.Decide.{ℕ_discrete}
use easy_connection.Prelude.{
  ℕ, ◌-◌, Bool, ◌||◌, Option, none, some, List, [], ◌∷◌, ◌++◌, ltb, leb, if◌then◌else◌, length,
  take, drop, Bytes,
}
use easy_connection.Prelude.Assoc.{get, insert, remove}

-- 45 s.
abbrev pub default_ttl : ℕ
default_ttl = 45_000_000_000

abbrev pub max_entries : ℕ
max_entries = 512

pub Bytes-discrete : Discrete Bytes
Bytes-discrete = hlevel ℕ_discrete

-- The query behind its transaction id, the instant of the insertion and the response.
abbrev pub CacheMap : Type 0
CacheMap = List (Bytes × (ℕ × Bytes))

abbrev pub new : CacheMap
new = []

-- `out[0] = query[0]; out[1] = query[1]` where the response has two bytes.
unfoldable pub rewrite_id : Bytes → Bytes → Bytes
rewrite_id query (x ∷ y ∷ rest) = take 2 query ++ rest
rewrite_id query out = out

-- What `get` does with the entry that it finds.
hit : ℕ → Bytes → Option (ℕ × Bytes) → CacheMap → Option Bytes × CacheMap
hit now query none m = (none, m)
hit now query (some (at, body)) m =
    if ltb default_ttl (now - at)
    then (none, remove Bytes-discrete (drop 2 query) m)
    else (some (rewrite_id query body), m)

unfoldable pub lookup : ℕ → Bytes → CacheMap → Option Bytes × CacheMap
unfolding hit rewrite_id
lookup now query m =
    if ltb (length query) 12
    then (none, m)
    else hit now query (get Bytes-discrete (drop 2 query) m) m

unfoldable pub put : ℕ → Bytes → Bytes → CacheMap → CacheMap
put now query response m =
    if ltb (length query) 12 || ltb (length response) 12
    then m
    else insert Bytes-discrete (drop 2 query) (now, response)
        (if leb max_entries (length m) then [] else m)

-- The calls that other tasks make, in the order of the lock.
pub data Call : Type 0 where
  asked : ℕ → Bytes → Call
  stored : ℕ → Bytes → Bytes → Call

abbrev pub apply : Call → CacheMap → CacheMap
apply (asked now query) m = (lookup now query m).1
apply (stored now query response) m = put now query response m

-- The map after a history of calls, the latest call first.
abbrev pub after : List Call → CacheMap
after [] = new
after (c ∷ cs) = apply c (after cs)
