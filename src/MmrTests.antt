-- ===== src/MmrTests.antt =====
-- The theorems about the lookups of ranks at concrete inputs.
use oof_rl.Prelude.{
  ℕ, suc, ◌≡◌, refl, Text, codes, text_beq, Bool, true, false, text_comparable, nat_comparable,
  Option, none, some, [], ◌∷◌, ◌++◌, arith, lookup, insert,
}
use oof_rl.Prelude.Results.{Result, ok, err}
use oof_rl.Mmr.{
  PlayerIdentity, Ranks, LookupError, upstream, new_player_identity, is_all_asterisks, Provider,
}
use oof_rl.Mmr.Fallback.{fallback_lookup}
use oof_rl.Mmr.Fallback.FirstSuccess.{fallback_lookup_lem}
use oof_rl.Mmr.Requests.{parse_request, is_separator}
use oof_rl.Mmr.Requests.Identity.{composite_id, parse_request-composite_id}
use oof_rl.Mmr.Cache.{
  CacheEntry, Json, CachedProvider, Outside, new_cached_provider, invalidate, ranks_key,
  lookup_ranks, read_cached, fresh_hit,
}
use oof_rl.Mmr.Cache.Serve.{second_lookup_is_free, stale_served}
use oof_rl.Mmr.Cache.Generations.{op_invalidate, op_lookup, run_ops, invalidated_refetches}
use oof_rl.Mmr.Cache.Restart.{invalidations, old_entry_revived}
use oof_rl.Mmr.Cache.Lookups.{act_enter, act_read, act_join, idle, run}
use oof_rl.Mmr.Cache.Lookups.SingleFlight.{single_flight}

parse_request-composite_id_example :
    parse_request (composite_id (codes "Epic") 124 (codes "ann")) (codes "Ann")
    ≡ ok (new_player_identity (codes "Epic") (codes "ann") (codes "Ann"))
unfolding is_separator is_all_asterisks
parse_request-composite_id_example =
    parse_request-composite_id (codes "Epic") (codes "ann") (codes "Ann") 124 refl refl refl refl
      refl refl

abbrev ann : PlayerIdentity
ann = record { primary_id = codes "ann"; display_name = codes "Ann"; platform = codes "epic" }

abbrev forbidden : LookupError
forbidden = upstream true (codes "403")

abbrev provider : Text → Bool → Result LookupError Ranks → Provider
provider name supported r = record { name = name; supports = λ p. supported; answer = λ id. r }

abbrev tracker : Provider
tracker = provider (codes "tracker.gg") true (err forbidden)

abbrev steam_only : Provider
steam_only = provider (codes "steam") false (ok none)

abbrev rlstats : Provider
rlstats = provider (codes "rlstats.net") true (ok (some []))

fallback_lookup_lem_example :
    fallback_lookup (λ i. none) ann (steam_only ∷ tracker ∷ rlstats ∷ tracker ∷ [])
    ≡ ((tracker ∷ []) ++ (rlstats ∷ []), ok (some []))
fallback_lookup_lem_example =
    fallback_lookup_lem (λ i. none) ann (steam_only ∷ tracker ∷ rlstats ∷ tracker ∷ [])
      (tracker ∷ []) (tracker ∷ []) rlstats (ok (some [])) (λ i. refl) refl ((forbidden, refl), tt)
      refl refl

-- A codec of the entries without ranks or with an empty list of them; others do not encode.
abbrev encode : ℕ → Ranks → Option Text
encode gen none = some (gen ∷ [])
encode gen (some []) = some (gen ∷ 0 ∷ [])
encode gen (some (r ∷ ranks)) = none

abbrev decode : Text → Option CacheEntry
decode (gen ∷ []) = some (record { gen = gen; ranks = none })
decode (gen ∷ c ∷ []) = some (record { gen = gen; ranks = some [] })
decode other = none

abbrev codec : Json
codec = record { marshal = λ e. encode e.gen e.ranks; unmarshal = decode }

encode-decode :
    (gen : ℕ) (ranks : Ranks) (data_json : Text)
    → encode gen ranks ≡ some data_json
    → decode data_json ≡ some (record { gen = gen; ranks = ranks })
encode-decode gen none data_json h =
    let e : (gen ∷ []) ≡ data_json = ground (arith, h) in rw (← e) refl
encode-decode gen (some []) data_json h =
    let e : (gen ∷ 0 ∷ []) ≡ data_json = ground (arith, h) in rw (← e) refl
encode-decode gen (some (r ∷ ranks)) data_json h = absurd (no_code h)
  where
    no_code : none ≡ some data_json → ⊥
    no_code e = cc

abbrev at_time : ℕ → Result LookupError Ranks → Outside
at_time now r = record {
  get_fails = false;
  upsert_fails = false;
  read_at = now;
  stored_at = suc now;
  returned_at = suc now;
  upstream = r;
}

abbrev empty_cache : CachedProvider
empty_cache = record { store = some []; ttl = 100; gen = 0; inflight = [] }

second_lookup_is_free_example :
    lookup_ranks codec
      (at_time 90 (err forbidden))
      ann
      (lookup_ranks codec (at_time 5 (ok (some []))) ann empty_cache).0
    ≡ ((lookup_ranks codec (at_time 5 (ok (some []))) ann empty_cache).0, false, ok (some [], 6))
unfolding lookup_ranks lookup
second_lookup_is_free_example =
    second_lookup_is_free codec (at_time 5 (ok (some []))) (at_time 90 (err forbidden)) ann
      empty_cache [] (some []) (0 ∷ 0 ∷ []) refl (omega arith) refl refl refl refl refl refl
      (omega arith)

abbrev filled : CachedProvider
filled = record {
  store = some ((codes "ranks:epic|ann", (3 ∷ 0 ∷ [], 7)) ∷ []);
  ttl = 100;
  gen = 5;
  inflight = [];
}

stale_served_example :
    ((lookup_ranks codec (at_time 900 (err forbidden)) ann filled).0 ≡ filled)
    × ((lookup_ranks codec (at_time 900 (err forbidden)) ann filled).2 ≡ ok (some [], 7))
unfolding lookup ranks_key text_beq
stale_served_example =
    stale_served codec (at_time 900 (err forbidden)) ann filled
      ((codes "ranks:epic|ann", (3 ∷ 0 ∷ [], 7)) ∷ []) (3 ∷ 0 ∷ []) 7 3 [] forbidden refl
      (omega arith) refl refl refl refl

invalidated_refetches_example :
    (lookup_ranks codec (at_time 20 (err forbidden)) ann (
      invalidate (
        run_ops codec
          (new_cached_provider (some []) 100)
          (op_invalidate ∷ op_lookup (at_time 5 (ok (some []))) ann ∷ [])))).1
    ≡ true
invalidated_refetches_example =
    invalidated_refetches codec (λ e. encode-decode e.gen e.ranks) (some []) 100
      (op_invalidate ∷ op_lookup (at_time 5 (ok (some []))) ann ∷ []) (at_time 20 (err forbidden))
      ann tt

old_entry_revived_example :
    lookup_ranks codec (at_time 50 (ok none)) ann (
      run_ops codec
        (new_cached_provider (some ((codes "ranks:epic|ann", (2 ∷ 0 ∷ [], 7)) ∷ [])) 100)
        (invalidations 2))
    ≡ (
      run_ops codec
          (new_cached_provider (some ((codes "ranks:epic|ann", (2 ∷ 0 ∷ [], 7)) ∷ [])) 100)
          (invalidations 2),
      false,
      ok (some [], 7),
    )
unfolding lookup ranks_key text_beq
old_entry_revived_example =
    old_entry_revived codec ((codes "ranks:epic|ann", (2 ∷ 0 ∷ [], 7)) ∷ []) 100
      (at_time 50 (ok none)) ann (2 ∷ 0 ∷ []) 7 (record { gen = 2; ranks = some [] }) refl refl refl
      (omega arith) (omega arith)

-- The first lookup leads and the second follows it.
single_flight_example : ◌≡◌ {A = ℕ} 1 1
unfolding run lookup insert text_beq ranks_key idle read_cached fresh_hit
single_flight_example =
    single_flight codec empty_cache
      (act_enter 1 ann
        ∷ act_enter 2 ann
        ∷ act_read 1 false 3
        ∷ act_read 2 false 3
        ∷ act_join 1
        ∷ act_join 2
        ∷ [])
      1 1 (codes "ranks:epic|ann") refl refl
