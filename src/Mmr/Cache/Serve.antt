-- ===== src/Mmr/Cache/Serve.antt =====
-- What a lookup serves from the cache.
use oof_rl.Prelude.{
  ℕ, ◌+◌, ◌-◌, ◌<◌, ◌≡◌, refl, ap, sym, ◌∙◌, Text, Bool, true, false, ◌&&◌, Option, none, some,
  List, text_comparable, text_beq_refl, ltb, ltb_iff, nat_beq, nat_beq_iff, lookup, insert,
  lookup-insert, arith, Bool-cases, inl, inr,
}
use oof_rl.Prelude.Results.{ok, err}
use oof_rl.Mmr.{PlayerIdentity, Ranks, LookupError, PlaylistRank}
use oof_rl.Mmr.Cache.{
  CacheEntry, Json, TrackerCache, CachedProvider, Cached, ranks_key, read_cached, fresh_hit,
  store_result, answer, Outside, call_upstream, lookup_ranks,
}

pub read_cached-row :
    (json : Json) (fails : Bool) (key : Text) (c : CachedProvider) (table : TrackerCache)
    (data_json : Text) (fetched_at : ℕ) (entry : CacheEntry)
    → c.store ≡ some table
    → 0 < c.ttl
    → lookup key table ≡ some (data_json, fetched_at)
    → json.unmarshal data_json ≡ some entry
    → fails ≡ false
    → read_cached json fails key c ≡ some (entry, fetched_at)
unfolding read_cached
read_cached-row json fails key c table data_json fetched_at entry store positive row decoded works =
    rw (store, (ltb_iff 0 c.ttl).1 positive, works, row, decoded) refl

pub fresh_hit-some :
    (gen ttl now fetched_at : ℕ) (entry : CacheEntry)
    → entry.gen ≡ gen
    → 0 < ttl
    → now < fetched_at + ttl
    → fresh_hit gen ttl now (some (entry, fetched_at)) ≡ some (entry.ranks, fetched_at)
unfolding fresh_hit
fresh_hit-some gen ttl now fetched_at entry same positive recent =
    rw
      (
        (nat_beq_iff entry.gen gen).1 same,
        (ltb_iff (now - fetched_at) ttl).1 (omega (arith, positive, recent)),
      )
      refl

not_called :
    (json : Json) (out : Outside) (key : Text) (cached : Cached) (c : CachedProvider)
    (hit : Option (Ranks × ℕ))
    → (call_upstream json out key cached c hit).1 ≡ true
    → call_upstream json out key cached c hit ≡ (
      store_result json out.upsert_fails key c.gen out.stored_at out.upstream c,
      true,
      answer cached out.upstream out.returned_at,
    )
not_called json out key cached c none h = refl
not_called json out key cached c (some hit) h = absurd (ground (arith, h))

store_result-written :
    (json : Json) (fails : Bool) (key : Text) (now : ℕ) (ranks : Ranks) (c : CachedProvider)
    (table : TrackerCache) (data_json : Text)
    → c.store ≡ some table
    → 0 < c.ttl
    → json.marshal (record { gen = c.gen; ranks = ranks }) ≡ some data_json
    → fails ≡ false
    → store_result json fails key c.gen now (ok ranks) c
      ≡ record c { store = some (insert key (data_json, now) table) }
unfolding store_result
store_result-written json fails key now ranks c table data_json store positive encoded works =
    rw (encoded, store, (ltb_iff 0 c.ttl).1 positive, works) refl

-- If a lookup called upstream and its ranks could be encoded, stored and decoded again, a lookup of
-- the same player in the same generation that reads the cache within the ttl of the write returns
-- these ranks with the time of the write, does not call upstream and changes nothing.
pub second_lookup_is_free :
    (json : Json) (first second : Outside) (id : PlayerIdentity) (c : CachedProvider)
    (table : TrackerCache) (ranks : Ranks) (data_json : Text)
    → c.store ≡ some table
    → 0 < c.ttl
    → (lookup_ranks json first id c).1 ≡ true
    → first.upstream ≡ ok ranks
    → json.marshal (record { gen = c.gen; ranks = ranks }) ≡ some data_json
    → json.unmarshal data_json ≡ some (record { gen = c.gen; ranks = ranks })
    → first.upsert_fails ≡ false
    → second.get_fails ≡ false
    → second.read_at < first.stored_at + c.ttl
    → lookup_ranks json second id (lookup_ranks json first id c).0
      ≡ ((lookup_ranks json first id c).0, false, ok (ranks, first.stored_at))
unfolding lookup_ranks
second_lookup_is_free json first second id c table ranks data_json store positive called upstream
      encoded decoded written readable recent =
    ap (λ c'. lookup_ranks json second id c') after
    ∙ again
    ∙ ap (λ c'. (c', false, ok (ranks, first.stored_at))) (sym after)
  where
    cached : Cached
    cached = read_cached json first.get_fails (ranks_key id) c

    stored : CachedProvider
    stored = record c { store = some (insert (ranks_key id) (data_json, first.stored_at) table) }

    after : (lookup_ranks json first id c).0 ≡ stored
    after =
        ap (λ r. r.0)
          (not_called json first (ranks_key id) cached c
            (fresh_hit c.gen c.ttl first.read_at cached) called)
        ∙ ap (λ r. store_result json first.upsert_fails (ranks_key id) c.gen first.stored_at r c)
            upstream
        ∙ store_result-written json first.upsert_fails (ranks_key id) first.stored_at ranks c table
            data_json store positive encoded written

    again : lookup_ranks json second id stored ≡ (stored, false, ok (ranks, first.stored_at))
    again =
        rw
          (
            read_cached-row json second.get_fails (ranks_key id) stored
                (insert (ranks_key id) (data_json, first.stored_at) table) data_json first.stored_at
                (record { gen = c.gen; ranks = ranks }) refl positive
                (lookup-insert (ranks_key id) (ranks_key id) (data_json, first.stored_at) table
                  ∙ rw (text_beq_refl (ranks_key id)) refl)
                decoded readable,
            fresh_hit-some c.gen c.ttl second.read_at first.stored_at
                (record { gen = c.gen; ranks = ranks }) refl positive recent,
          )
          refl

-- If the cache holds ranks of the player and can be read, a lookup whose call of upstream would fail
-- returns them with the time at which they were fetched, and changes nothing.
pub stale_served :
    (json : Json) (out : Outside) (id : PlayerIdentity) (c : CachedProvider) (table : TrackerCache)
    (data_json : Text) (fetched_at gen : ℕ) (ranks : List PlaylistRank) (e : LookupError)
    → c.store ≡ some table
    → 0 < c.ttl
    → lookup (ranks_key id) table ≡ some (data_json, fetched_at)
    → json.unmarshal data_json ≡ some (record { gen = gen; ranks = some ranks })
    → out.get_fails ≡ false
    → out.upstream ≡ err e
    → ((lookup_ranks json out id c).0 ≡ c)
      × ((lookup_ranks json out id c).2 ≡ ok (some ranks, fetched_at))
unfolding lookup_ranks fresh_hit store_result answer
stale_served json out id c table data_json fetched_at gen ranks e store positive row decoded
      readable upstream =
    rw
      (read_cached-row json out.get_fails (ranks_key id) c table data_json fetched_at
        (record { gen = gen; ranks = some ranks }) store positive row decoded readable)
      (elim (Bool-cases (nat_beq gen c.gen && ltb (out.read_at - fetched_at) c.ttl)) [
        | inl fresh ↦ rw fresh (refl, refl)
        | inr old ↦ rw (old, upstream) (refl, refl)
      ])
