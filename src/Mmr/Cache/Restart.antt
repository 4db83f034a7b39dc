-- ===== src/Mmr/Cache/Restart.antt =====
-- A new provider over the store of an earlier run of the program.
use oof_rl.Prelude.{
  ℕ, zero, suc, ◌+◌, ◌<◌, ◌≡◌, refl, ap, sym, ◌∙◌, Text, false, some, List, [], ◌∷◌,
  text_comparable, lookup, arith,
}
use oof_rl.Prelude.Results.{ok}
use oof_rl.Mmr.{PlayerIdentity}
use oof_rl.Mmr.Cache.{
  CacheEntry, Json, TrackerCache, CachedProvider, new_cached_provider, invalidate, ranks_key,
  Outside, lookup_ranks,
}
use oof_rl.Mmr.Cache.Serve.{read_cached-row, fresh_hit-some}
use oof_rl.Mmr.Cache.Generations.{Op, op_invalidate, run_ops}

-- The matches of a session in which nobody looks at ranks.
abbrev pub invalidations : ℕ → List Op
invalidations zero = []
invalidations (suc n) = op_invalidate ∷ invalidations n

run_ops-invalidations :
    (json : Json) (n : ℕ) (c : CachedProvider)
    → run_ops json c (invalidations n) ≡ record c { gen = n + c.gen }
unfolding run_ops invalidate
run_ops-invalidations json zero c = ap (λ g. record c { gen = g }) (omega arith)
run_ops-invalidations json (suc n) c =
    run_ops-invalidations json n (invalidate c) ∙ ap (λ g. record c { gen = g }) (omega arith)

-- If the store holds a readable entry from an earlier run of the program, of that run's generation n,
-- then after the n-th Invalidate of a new provider over this store a lookup within the ttl returns
-- the old ranks and does not call upstream.
pub old_entry_revived :
    (json : Json) (table : TrackerCache) (ttl : ℕ) (out : Outside) (id : PlayerIdentity)
    (data_json : Text) (fetched_at : ℕ) (entry : CacheEntry)
    → lookup (ranks_key id) table ≡ some (data_json, fetched_at)
    → json.unmarshal data_json ≡ some entry
    → out.get_fails ≡ false
    → 0 < ttl
    → out.read_at < fetched_at + ttl
    → let c = run_ops json (new_cached_provider (some table) ttl) (invalidations entry.gen) in
      lookup_ranks json out id c ≡ (c, false, ok (entry.ranks, fetched_at))
unfolding new_cached_provider lookup_ranks
old_entry_revived json table ttl out id data_json fetched_at entry row decoded readable positive
      recent =
    let same = run_ops-invalidations json entry.gen (new_cached_provider (some table) ttl) in
    ap (lookup_ranks json out id) same
    ∙ served
    ∙ ap (λ c. (c, false, ok (entry.ranks, fetched_at))) (sym same)
  where
    revived : CachedProvider
    revived = record (new_cached_provider (some table) ttl) { gen = entry.gen + 0 }

    served : lookup_ranks json out id revived ≡ (revived, false, ok (entry.ranks, fetched_at))
    served =
        rw
          (
            read_cached-row json out.get_fails (ranks_key id) revived table data_json fetched_at
                entry refl positive row decoded readable,
            fresh_hit-some (entry.gen + 0) ttl out.read_at fetched_at entry (omega arith) positive
                recent,
          )
          refl
