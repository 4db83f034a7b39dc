-- ===== src/Mmr/Cache/Generations.antt =====
-- What Invalidate makes of the entries.
use oof_rl.Prelude.{
  ℕ, suc, ◌≤◌, ◌≡◌, refl, Text, Bool, true, Option, none, some, List, [], ◌∷◌, ◌==◌, All,
  text_comparable, ltb, nat_beq, nat_beq_iff, lookup, insert, arith, Bool-cases, inl, inr,
}
use oof_rl.Prelude.Results.{Result, ok, err}
use oof_rl.Mmr.{PlayerIdentity, Ranks, LookupError}
use oof_rl.Mmr.Cache.{
  CacheEntry, Json, TrackerCache, CachedProvider, Cached, with_time, decode_row, read_store,
  put_row, put, new_cached_provider, invalidate, ranks_key, get_tracker_cache, read_cached,
  fresh_hit, store_result, Outside, call_upstream, lookup_ranks,
}

-- What happens to a provider, one call at a time.
pub data Op : Type 0 where
  op_invalidate : Op
  op_lookup : Outside → PlayerIdentity → Op

abbrev pub apply_op : Json → CachedProvider → Op → CachedProvider
apply_op json c op_invalidate = invalidate c
apply_op json c (op_lookup out id) = (lookup_ranks json out id c).0

unfoldable pub run_ops : Json → CachedProvider → List Op → CachedProvider
unfolding invalidate lookup_ranks
run_ops json c [] = c
run_ops json c (op ∷ ops) = run_ops json (apply_op json c op) ops

-- The entry, if it can be read, is of no later generation.
abbrev pub IsUpTo : ℕ → Option CacheEntry → Type 0
IsUpTo gen none = Unit
IsUpTo gen (some e) = e.gen ≤ gen

abbrev pub RowsUpTo : Json → ℕ → TrackerCache → Type 0
RowsUpTo json gen table =
    All (λ (row : Text × (Text × ℕ)). IsUpTo gen (json.unmarshal row.1.0)) table

abbrev pub StoreUpTo : Json → ℕ → Option TrackerCache → Type 0
StoreUpTo json gen none = Unit
StoreUpTo json gen (some table) = RowsUpTo json gen table

IsUpTo-later : (gen : ℕ) (e : Option CacheEntry) → IsUpTo gen e → IsUpTo (suc gen) e
IsUpTo-later gen none h = tt
IsUpTo-later gen (some e) h = omega (arith, h)

RowsUpTo-later :
    (json : Json) (gen : ℕ) (table : TrackerCache)
    → RowsUpTo json gen table
    → RowsUpTo json (suc gen) table
RowsUpTo-later json gen [] h = tt
RowsUpTo-later json gen (row ∷ rows) h =
    (IsUpTo-later gen (json.unmarshal row.1.0) h.0, RowsUpTo-later json gen rows h.1)

StoreUpTo-later :
    (json : Json) (gen : ℕ) (store : Option TrackerCache)
    → StoreUpTo json gen store
    → StoreUpTo json (suc gen) store
StoreUpTo-later json gen none h = tt
StoreUpTo-later json gen (some table) h = RowsUpTo-later json gen table h

RowsUpTo-insert :
    (json : Json) (gen : ℕ) (key data_json : Text) (now : ℕ) (table : TrackerCache)
    → IsUpTo gen (json.unmarshal data_json)
    → RowsUpTo json gen table
    → RowsUpTo json gen (insert key (data_json, now) table)
unfolding insert
RowsUpTo-insert json gen key data_json now [] new h = (new, tt)
RowsUpTo-insert json gen key data_json now ((other, row) ∷ rows) new h =
    elim (Bool-cases (other == key)) [
      | inl same ↦ rw same (new, h.1)
      | inr differs ↦ rw differs (h.0, RowsUpTo-insert json gen key data_json now rows new h.1)
    ]

RowsUpTo-lookup :
    (json : Json) (gen : ℕ) (key : Text) (table : TrackerCache) (data_json : Text) (fetched_at : ℕ)
    → RowsUpTo json gen table
    → lookup key table ≡ some (data_json, fetched_at)
    → IsUpTo gen (json.unmarshal data_json)
unfolding lookup
RowsUpTo-lookup json gen key [] data_json fetched_at h found = absurd (no_row found)
  where
    no_row : ◌≡◌ {A = Option (Text × ℕ)} none (some (data_json, fetched_at)) → ⊥
    no_row e = cc
RowsUpTo-lookup json gen key ((other, row) ∷ rows) data_json fetched_at h found =
    elim (Bool-cases (other == key)) [
      | inl same ↦ this_row (rw same at found)
      | inr differs ↦
          RowsUpTo-lookup json gen key rows data_json fetched_at h.1 (rw differs at found)
    ]
  where
    this_row :
        ◌≡◌ {A = Option (Text × ℕ)} (some row) (some (data_json, fetched_at))
        → IsUpTo gen (json.unmarshal data_json)
    this_row e = let equal : row.0 ≡ data_json = ground (arith, e) in rw (← equal) h.0

module _ (json : Json)
    (round_trips : (e : CacheEntry) (data_json : Text)
      → json.marshal e ≡ some data_json
      → json.unmarshal data_json ≡ some e) where
  StoreUpTo-store_result :
      (fails : Bool) (key : Text) (now : ℕ) (r : Result LookupError Ranks) (c : CachedProvider)
      → StoreUpTo json c.gen c.store
      → StoreUpTo json c.gen (store_result json fails key c.gen now r c).store
  unfolding store_result
  StoreUpTo-store_result fails key now (err e) c h = h
  StoreUpTo-store_result fails key now (ok ranks) c h = written c.store h
    where
      encoded :
          (table : TrackerCache) (data_json : Option Text)
          → json.marshal (record { gen = c.gen; ranks = ranks }) ≡ data_json
          → RowsUpTo json c.gen table
          → RowsUpTo json c.gen (put_row fails key data_json now table)
      encoded table none m h = h
      encoded table (some data_json) m h = elim (Bool-cases fails) [
        | inl failed ↦ rw failed h
        | inr works ↦ rw works (
            RowsUpTo-insert json c.gen key data_json now table
              (rw (round_trips (record { gen = c.gen; ranks = ranks }) data_json m) (omega arith))
              h)
      ]

      written :
          (store : Option TrackerCache)
          → StoreUpTo json c.gen store
          → StoreUpTo json c.gen
              (put fails key (json.marshal (record { gen = c.gen; ranks = ranks })) c.ttl now store)
      written none h = tt
      written (some table) h = elim (Bool-cases (ltb 0 c.ttl)) [
        | inr off ↦ rw off h
        | inl on ↦
            rw on (encoded table (json.marshal (record { gen = c.gen; ranks = ranks })) refl h)
      ]

  store_result-gen :
      (fails : Bool) (key : Text) (gen now : ℕ) (r : Result LookupError Ranks) (c : CachedProvider)
      → (store_result json fails key gen now r c).gen ≡ c.gen
  unfolding store_result
  store_result-gen fails key gen now (ok ranks) c = refl
  store_result-gen fails key gen now (err e) c = refl

  call_upstream-UpTo :
      (out : Outside) (key : Text) (cached : Cached) (c : CachedProvider) (hit : Option (Ranks × ℕ))
      → StoreUpTo json c.gen c.store
      → StoreUpTo json
          (call_upstream json out key cached c hit).0.gen
          (call_upstream json out key cached c hit).0.store
  unfolding store_result
  call_upstream-UpTo out key cached c (some hit) h = h
  call_upstream-UpTo out key cached c none h =
      rw (store_result-gen out.upsert_fails key c.gen out.stored_at out.upstream c)
        (StoreUpTo-store_result out.upsert_fails key out.stored_at out.upstream c h)

  run_ops-UpTo :
      (c : CachedProvider) (ops : List Op)
      → StoreUpTo json c.gen c.store
      → StoreUpTo json (run_ops json c ops).gen (run_ops json c ops).store
  unfolding run_ops
  run_ops-UpTo c [] h = h
  run_ops-UpTo c (op_invalidate ∷ ops) h =
      run_ops-UpTo (invalidate c) ops (StoreUpTo-later json c.gen c.store h)
  run_ops-UpTo c (op_lookup out id ∷ ops) h =
      let cached = read_cached json out.get_fails (ranks_key id) c in
      run_ops-UpTo (lookup_ranks json out id c).0 ops (
        call_upstream-UpTo out (ranks_key id) cached c (fresh_hit c.gen c.ttl out.read_at cached) h)

  CachedUpTo : ℕ → Cached → Type 0
  CachedUpTo gen none = Unit
  CachedUpTo gen (some (e, fetched_at)) = e.gen ≤ gen

  with_time-UpTo :
      (gen : ℕ) (e : Option CacheEntry) (fetched_at : ℕ)
      → IsUpTo gen e
      → CachedUpTo gen (with_time e fetched_at)
  unfolding CachedUpTo
  with_time-UpTo gen none fetched_at h = tt
  with_time-UpTo gen (some e) fetched_at h = h

  decode_row-UpTo :
      (gen : ℕ) (key : Text) (table : TrackerCache) (row : Option (Text × ℕ))
      → lookup key table ≡ row
      → RowsUpTo json gen table
      → CachedUpTo gen (decode_row json (ok row))
  unfolding CachedUpTo
  decode_row-UpTo gen key table none found h = tt
  decode_row-UpTo gen key table (some (data_json, fetched_at)) found h =
      with_time-UpTo gen (json.unmarshal data_json) fetched_at
        (RowsUpTo-lookup json gen key table data_json fetched_at h found)

  read_store-UpTo :
      (fails : Bool) (key : Text) (ttl gen : ℕ) (store : Option TrackerCache)
      → StoreUpTo json gen store
      → CachedUpTo gen (read_store json fails key ttl store)
  unfolding CachedUpTo get_tracker_cache
  read_store-UpTo fails key ttl gen none h = tt
  read_store-UpTo fails key ttl gen (some table) h = elim (Bool-cases (ltb 0 ttl)) [
    | inr off ↦ rw off tt
    | inl on ↦ rw on (elim (Bool-cases fails) [
      | inl failed ↦ rw failed tt
      | inr works ↦ rw works (decode_row-UpTo gen key table (lookup key table) refl h)
    ])
  ]

  fresh_hit-old :
      (gen ttl now : ℕ) (cached : Cached)
      → CachedUpTo gen cached
      → fresh_hit (suc gen) ttl now cached ≡ none
  unfolding CachedUpTo fresh_hit
  fresh_hit-old gen ttl now none h = refl
  fresh_hit-old gen ttl now (some (e, fetched_at)) h = elim (Bool-cases (nat_beq e.gen (suc gen))) [
    | inr older ↦ rw older refl
    | inl same ↦ absurd (omega (arith, h, (nat_beq_iff e.gen (suc gen)).0 same))
  ]

  -- If decoding gives back what was encoded, a provider over a store without entries of a generation
  -- above 0 calls upstream in the first lookup after each Invalidate, whatever lookups and
  -- invalidations came before.
  pub invalidated_refetches :
      (store : Option TrackerCache) (ttl : ℕ) (ops : List Op) (out : Outside) (id : PlayerIdentity)
      → StoreUpTo json 0 store
      → (lookup_ranks json out id (invalidate (run_ops json (new_cached_provider store ttl) ops))).1
        ≡ true
  unfolding lookup_ranks new_cached_provider invalidate
  invalidated_refetches store ttl ops out id h =
      let c = run_ops json (new_cached_provider store ttl) ops in
      let up_to = run_ops-UpTo (new_cached_provider store ttl) ops h in
      rw
        (fresh_hit-old c.gen c.ttl out.read_at
          (read_cached json out.get_fails (ranks_key id) (invalidate c))
          (read_store-UpTo out.get_fails (ranks_key id) c.ttl c.gen c.store up_to))
        refl
