-- ===== src/Mmr/Cache.antt =====
-- internal/mmr/cache.go, and the table tracker_cache of internal/db/db.go. encoding/json is the
-- parameter `Json`; the faults of the database, the times and what the inner provider returns come
-- with each call. Times are nanoseconds; a ttl that is not positive is 0.
pub mod Serve
pub mod Lookups
pub mod Generations
pub mod Restart
use oof_rl.Prelude.{
  ℕ, zero, suc, ◌+◌, ◌-◌, Text, codes, Bool, true, false, not, ◌&&◌, ◌||◌, Option, none, some, List,
  [], ◌∷◌, ◌++◌, ◌==◌, text_comparable, ltb, nat_beq, lookup, insert, if◌then◌else◌,
}
use oof_rl.Prelude.Results.{Result, ok, err}
use oof_rl.Mmr.{PlayerIdentity, Ranks, LookupError}

pub record CacheEntry : Type 0 where
  pub gen : ℕ
  pub ranks : Ranks

-- json.Marshal and json.Unmarshal at cacheEntry; `none` is an error.
pub record Json : Type 0 where
  pub marshal : CacheEntry → Option Text
  pub unmarshal : Text → Option CacheEntry

-- The rows of tracker_cache: data_json and fetched_at by primary_id.
abbrev pub TrackerCache : Type 0
TrackerCache = List (Text × (Text × ℕ))

pub data DbError : Type 0 where
  db_error : DbError

unfoldable pub get_tracker_cache : Bool → Text → TrackerCache → Result DbError (Option (Text × ℕ))
get_tracker_cache fails key table = if fails then err db_error else ok (lookup key table)

unfoldable pub upsert_tracker_cache :
    Bool → Text → Text → ℕ → TrackerCache → TrackerCache × Option DbError
upsert_tracker_cache fails key data_json now table =
    if fails then (table, some db_error) else (insert key (data_json, now) table, none)

-- `inflight` holds, for each key, the number of the lookup that leads the call; a nil store is `none`.
pub record CachedProvider : Type 0 where
  pub store : Option TrackerCache
  pub ttl : ℕ
  pub gen : ℕ
  pub inflight : List (Text × ℕ)

unfoldable pub new_cached_provider : Option TrackerCache → ℕ → CachedProvider
new_cached_provider store ttl = record { store = store; ttl = ttl; gen = 0; inflight = [] }

unfoldable pub invalidate : CachedProvider → CachedProvider
invalidate c = record c { gen = suc c.gen }

unfoldable pub ranks_key : PlayerIdentity → Text
ranks_key id = codes "ranks:" ++ (id.platform ++ (codes "|" ++ id.primary_id))

-- An entry and its fetch time, if there is one that can be read.
abbrev pub Cached : Type 0
Cached = Option (CacheEntry × ℕ)

abbrev pub with_time : Option CacheEntry → ℕ → Cached
with_time none fetched_at = none
with_time (some e) fetched_at = some (e, fetched_at)

abbrev pub decode_row : Json → Result DbError (Option (Text × ℕ)) → Cached
decode_row json (err e) = none
decode_row json (ok none) = none
decode_row json (ok (some (data_json, fetched_at))) =
    with_time (json.unmarshal data_json) fetched_at

abbrev read_store : Json → Bool → Text → ℕ → Option TrackerCache → Cached
read_store json fails key ttl none = none
read_store json fails key ttl (some table) =
    if ltb 0 ttl then decode_row json (get_tracker_cache fails key table) else none

-- The read of the cache at the start of lookup.
unfoldable pub read_cached : Json → Bool → Text → CachedProvider → Cached
unfolding get_tracker_cache
read_cached json fails key c = read_store json fails key c.ttl c.store

-- The fresh hit.
unfoldable pub fresh_hit : ℕ → ℕ → ℕ → Cached → Option (Ranks × ℕ)
fresh_hit gen ttl now none = none
fresh_hit gen ttl now (some (e, fetched_at)) =
    if nat_beq e.gen gen && ltb (now - fetched_at) ttl then some (e.ranks, fetched_at) else none

abbrev put_row : Bool → Text → Option Text → ℕ → TrackerCache → TrackerCache
put_row fails key none now table = table
put_row fails key (some data_json) now table =
    (upsert_tracker_cache fails key data_json now table).0

abbrev put : Bool → Text → Option Text → ℕ → ℕ → Option TrackerCache → Option TrackerCache
put fails key data_json ttl now none = none
put fails key data_json ttl now (some table) =
    some (if ltb 0 ttl then put_row fails key data_json now table else table)

-- What the leader of a call does with the result of the inner provider.
unfoldable pub store_result :
    Json → Bool → Text → ℕ → ℕ → Result LookupError Ranks → CachedProvider → CachedProvider
unfolding upsert_tracker_cache
store_result json fails key gen now (err e) c = c
store_result json fails key gen now (ok ranks) c = record c {
  store = put fails key (json.marshal (record { gen = gen; ranks = ranks })) c.ttl now c.store;
}

abbrev stale_ranks : LookupError → Ranks → ℕ → Result LookupError (Ranks × ℕ)
stale_ranks e none fetched_at = err e
stale_ranks e (some ranks) fetched_at = ok (some ranks, fetched_at)

abbrev stale_or : LookupError → Cached → Result LookupError (Ranks × ℕ)
stale_or e none = err e
stale_or e (some (entry, fetched_at)) = stale_ranks e entry.ranks fetched_at

-- The end of lookup: the result of the call, or the stale ranks where it failed.
unfoldable pub answer : Cached → Result LookupError Ranks → ℕ → Result LookupError (Ranks × ℕ)
answer cached (ok ranks) now = ok (ranks, now)
answer cached (err e) now = stale_or e cached

-- What happens outside during one call of lookup.
pub record Outside : Type 0 where
  pub get_fails : Bool
  pub upsert_fails : Bool
  pub read_at : ℕ
  pub stored_at : ℕ
  pub returned_at : ℕ
  pub upstream : Result LookupError Ranks

abbrev pub call_upstream :
    Json
    → Outside
    → Text
    → Cached
    → CachedProvider
    → Option (Ranks × ℕ)
    → CachedProvider × Bool × Result LookupError (Ranks × ℕ)
call_upstream json out key cached c (some hit) = (c, false, ok hit)
call_upstream json out key cached c none = (
  store_result json out.upsert_fails key c.gen out.stored_at out.upstream c,
  true,
  answer cached out.upstream out.returned_at,
)

-- lookup, where no other lookup runs: the provider, whether upstream was called, and the result.
unfoldable pub lookup_ranks :
    Json
    → Outside
    → PlayerIdentity
    → CachedProvider
    → CachedProvider × Bool × Result LookupError (Ranks × ℕ)
unfolding read_cached fresh_hit store_result answer ranks_key
lookup_ranks json out id c =
    let cached = read_cached json out.get_fails (ranks_key id) c in
    call_upstream json out (ranks_key id) cached c (fresh_hit c.gen c.ttl out.read_at cached)
