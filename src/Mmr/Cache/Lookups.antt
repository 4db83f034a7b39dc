-- ===== src/Mmr/Cache/Lookups.antt =====
-- Concurrent lookups: the steps of lookup and lookupSingle between which other goroutines run. A
-- lookup has a number; the number of the leader stands for the inflightCall. The write to the store
-- and close(call.done) are one step, and a call that is done stays in `done` though its key is deleted.
pub mod SingleFlight
use oof_rl.Prelude.{
  ℕ, Text, Bool, true, false, Option, none, some, List, [], ◌∷◌, text_comparable, nat_comparable,
  lookup, insert, remove, if◌then◌else◌,
}
use oof_rl.Prelude.Results.{Result, ok, err}
use oof_rl.Mmr.{PlayerIdentity, Ranks, LookupError, cancelled}
use oof_rl.Mmr.Cache.{
  Json, CachedProvider, Cached, invalidate, ranks_key, read_cached, fresh_hit, store_result, answer,
}

-- Where a lookup is: before its read of the store, with the generation that it loaded; before the
-- lock; leading the call; after close(call.done); waiting for a leader; or back with its result.
pub data Phase : Type 0 where
  reading : ℕ → Phase
  joining leading : ℕ → Cached → Phase
  finishing : Cached → Result LookupError Ranks → Phase
  following : ℕ → Cached → Phase
  returned : Result LookupError (Ranks × ℕ) → Phase

pub record Lookups : Type 0 where
  pub cache : CachedProvider
  pub running : List (ℕ × (PlayerIdentity × Phase))
  pub done : List (ℕ × Result LookupError Ranks)

pub data Act : Type 0 where
  act_invalidate : Act
  act_enter : ℕ → PlayerIdentity → Act
  act_read : ℕ → (fails : Bool) → (now : ℕ) → Act
  act_join : ℕ → Act
  act_fetched : ℕ → Result LookupError Ranks → (fails : Bool) → (now : ℕ) → Act
  act_delete act_wake : ℕ → (now : ℕ) → Act
  act_cancel : ℕ → Text → (now : ℕ) → Act

abbrev pub to_phase : ℕ → PlayerIdentity → Phase → Lookups → Lookups
to_phase t id phase s = record s { running = insert t (id, phase) s.running }

abbrev pub enter : Option (PlayerIdentity × Phase) → ℕ → PlayerIdentity → Lookups → Lookups
enter none t id s = to_phase t id (reading s.cache.gen) s
enter (some other) t id s = s

abbrev pub hit_or_join : Option (Ranks × ℕ) → ℕ → Cached → Phase
hit_or_join none gen cached = joining gen cached
hit_or_join (some hit) gen cached = returned (ok hit)

abbrev pub read : Json → Bool → ℕ → Option (PlayerIdentity × Phase) → ℕ → Lookups → Lookups
read json fails now (some (id, reading gen)) t s =
    let cached = read_cached json fails (ranks_key id) s.cache in
    to_phase t id (hit_or_join (fresh_hit gen s.cache.ttl now cached) gen cached) s
read json fails now other t s = s

abbrev pub lead_or_follow : Option ℕ → ℕ → PlayerIdentity → ℕ → Cached → Lookups → Lookups
lead_or_follow (some leader) t id gen cached s = to_phase t id (following leader cached) s
lead_or_follow none t id gen cached s =
    to_phase t id (leading gen cached)
      (record s { cache = record s.cache { inflight = insert (ranks_key id) t s.cache.inflight } })

abbrev pub join : Option (PlayerIdentity × Phase) → ℕ → Lookups → Lookups
join (some (id, joining gen cached)) t s =
    lead_or_follow (lookup (ranks_key id) s.cache.inflight) t id gen cached s
join other t s = s

abbrev pub fetched :
    Json
    → Result LookupError Ranks
    → Bool
    → ℕ
    → Option (PlayerIdentity × Phase)
    → ℕ
    → Lookups
    → Lookups
fetched json r fails now (some (id, leading gen cached)) t s =
    to_phase t id (finishing cached r) (record s {
      cache = store_result json fails (ranks_key id) gen now r s.cache;
      done = insert t r s.done;
    })
fetched json r fails now other t s = s

abbrev pub delete : ℕ → Option (PlayerIdentity × Phase) → ℕ → Lookups → Lookups
delete now (some (id, finishing cached r)) t s =
    to_phase t id (returned (answer cached r now))
      (record s { cache = record s.cache { inflight = remove (ranks_key id) s.cache.inflight } })
delete now other t s = s

abbrev woken :
    Option (Result LookupError Ranks) → ℕ → ℕ → PlayerIdentity → Cached → Lookups → Lookups
woken none now t id cached s = s
woken (some r) now t id cached s = to_phase t id (returned (answer cached r now)) s

abbrev pub wake : ℕ → Option (PlayerIdentity × Phase) → ℕ → Lookups → Lookups
wake now (some (id, following leader cached)) t s = woken (lookup leader s.done) now t id cached s
wake now other t s = s

abbrev pub give_up : Text → ℕ → Option (PlayerIdentity × Phase) → ℕ → Lookups → Lookups
give_up e now (some (id, following leader cached)) t s =
    to_phase t id (returned (answer cached (err (cancelled e)) now)) s
give_up e now other t s = s

unfoldable pub step : Json → Lookups → Act → Lookups
unfolding read_cached fresh_hit store_result answer ranks_key invalidate
step json s act_invalidate = record s { cache = invalidate s.cache }
step json s (act_enter t id) = enter (lookup t s.running) t id s
step json s (act_read t fails now) = read json fails now (lookup t s.running) t s
step json s (act_join t) = join (lookup t s.running) t s
step json s (act_fetched t r fails now) = fetched json r fails now (lookup t s.running) t s
step json s (act_delete t now) = delete now (lookup t s.running) t s
step json s (act_wake t now) = wake now (lookup t s.running) t s
step json s (act_cancel t e now) = give_up e now (lookup t s.running) t s

unfoldable pub run : Json → Lookups → List Act → Lookups
unfolding step
run json s [] = s
run json s (a ∷ acts) = run json (step json s a) acts

-- A provider that no lookup uses yet.
unfoldable pub idle : CachedProvider → Lookups
idle c = record { cache = record c { inflight = [] }; running = []; done = [] }
