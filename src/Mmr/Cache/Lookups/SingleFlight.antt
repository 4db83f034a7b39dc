-- ===== src/Mmr/Cache/Lookups/SingleFlight.antt =====
-- At most one lookup calls upstream for a player at a time.
use oof_rl.Prelude.{
  ℕ, ◌≡◌, refl, ap, sym, ◌∙◌, Text, Bool, true, false, Option, none, some, List, [], ◌∷◌, ◌==◌,
  text_comparable, text_beq_iff, nat_comparable, nat_beq_iff, lookup, insert, remove, lookup-insert,
  lookup-remove, arith, Bool-cases, inl, inr,
}
use oof_rl.Prelude.Results.{Result, ok, err}
use oof_rl.Mmr.{PlayerIdentity, Ranks, LookupError, cancelled}
use oof_rl.Mmr.Cache.{
  Json, CachedProvider, Cached, invalidate, ranks_key, read_cached, fresh_hit, store_result, answer,
}
use oof_rl.Mmr.Cache.Lookups.{
  Phase, reading, joining, leading, finishing, following, returned, Lookups, Act, act_invalidate,
  act_enter, act_read, act_join, act_fetched, act_delete, act_wake, act_cancel, enter, read,
  hit_or_join, lead_or_follow, join, fetched, delete, woken, wake, give_up, step, run, idle,
}

-- The lookup leads the call for this key, until it deletes the key.
abbrev pub leads : Text → Option (PlayerIdentity × Phase) → Bool
leads key (some (id, leading gen cached)) = ranks_key id == key
leads key (some (id, finishing cached r)) = ranks_key id == key
leads key other = false

-- The lookup waits for the inner provider.
abbrev pub calls_upstream : Text → Option (PlayerIdentity × Phase) → Bool
calls_upstream key (some (id, leading gen cached)) = ranks_key id == key
calls_upstream key other = false

leads_of_calls_upstream :
    (key : Text) (o : Option (PlayerIdentity × Phase))
    → calls_upstream key o ≡ true
    → leads key o ≡ true
leads_of_calls_upstream key (some (id, leading gen cached)) h = h
leads_of_calls_upstream key (some (id, reading gen)) h = h
leads_of_calls_upstream key (some (id, joining gen cached)) h = h
leads_of_calls_upstream key (some (id, finishing cached r)) h = absurd (ground (arith, h))
leads_of_calls_upstream key (some (id, following leader cached)) h = h
leads_of_calls_upstream key (some (id, returned r)) h = h
leads_of_calls_upstream key none h = h

-- Every leader is entered in the map under its key.
abbrev IsEntered : Lookups → Type 0
IsEntered s =
    (t : ℕ) (key : Text)
    → leads key (lookup t s.running) ≡ true
    → lookup key s.cache.inflight ≡ some t

-- One lookup moves on and the map may change.
moved :
    (s : Lookups) (u : ℕ) (id : PlayerIdentity) (phase : Phase) (inflight : List (Text × ℕ))
    → ((key : Text) → leads key (some (id, phase)) ≡ true → lookup key inflight ≡ some u)
    → ((t : ℕ) (key : Text)
        → (u == t) ≡ false
        → leads key (lookup t s.running) ≡ true
        → lookup key inflight ≡ some t)
    → (t : ℕ) (key : Text) → leads key (lookup t (insert u (id, phase) s.running)) ≡ true
    → lookup key inflight ≡ some t
moved s u id phase inflight own others t key h = elim (Bool-cases (u == t)) [
  | inl same ↦
      own key (rw (lookup-insert u t (id, phase) s.running, same) at h)
      ∙ ap some ((nat_beq_iff u t).0 same)
  | inr other ↦ others t key other (rw (lookup-insert u t (id, phase) s.running, other) at h)
]

-- It moves to a phase in which it does not lead.
stepped_aside :
    (s : Lookups) (u : ℕ) (id : PlayerIdentity) (phase : Phase)
    → ((key : Text) → leads key (some (id, phase)) ≡ false)
    → IsEntered s
    → (t : ℕ) (key : Text) → leads key (lookup t (insert u (id, phase) s.running)) ≡ true
    → lookup key s.cache.inflight ≡ some t
stepped_aside s u id phase aside inv =
    moved s u id phase s.cache.inflight (λ key h. absurd (not_both key h))
      (λ t key _ h. inv t key h)
  where
    not_both : (key : Text) → leads key (some (id, phase)) ≡ true → ⊥
    not_both key h = ground (arith, h, aside key)

enter-IsEntered :
    (o : Option (PlayerIdentity × Phase)) (u : ℕ) (id : PlayerIdentity) (s : Lookups)
    → IsEntered s
    → IsEntered (enter o u id s)
enter-IsEntered none u id s inv = stepped_aside s u id (reading s.cache.gen) (λ key. refl) inv
enter-IsEntered (some other) u id s inv = inv

hit_or_join_aside :
    (hit : Option (Ranks × ℕ)) (gen : ℕ) (cached : Cached) (id : PlayerIdentity) (key : Text)
    → leads key (some (id, hit_or_join hit gen cached)) ≡ false
hit_or_join_aside none gen cached id key = refl
hit_or_join_aside (some hit) gen cached id key = refl

read-IsEntered :
    (json : Json) (fails : Bool) (now : ℕ) (o : Option (PlayerIdentity × Phase)) (u : ℕ)
    (s : Lookups)
    → IsEntered s
    → IsEntered (read json fails now o u s)
read-IsEntered json fails now (some (id, reading gen)) u s inv =
    let cached = read_cached json fails (ranks_key id) s.cache in
    let hit = fresh_hit gen s.cache.ttl now cached in
    stepped_aside s u id (hit_or_join hit gen cached) (hit_or_join_aside hit gen cached id) inv
read-IsEntered json fails now other u s inv = inv

join-IsEntered :
    (o : Option (PlayerIdentity × Phase)) (u : ℕ) (s : Lookups)
    → IsEntered s
    → IsEntered (join o u s)
join-IsEntered (some (id, joining gen cached)) u s inv =
    led (lookup (ranks_key id) s.cache.inflight) refl
  where
    taken :
        (t : ℕ) (key : Text)
        → lookup (ranks_key id) s.cache.inflight ≡ none
        → lookup key s.cache.inflight ≡ some t
        → (ranks_key id == key) ≡ false
    taken t key free h = elim (Bool-cases (ranks_key id == key)) [
      | inr other ↦ other
      | inl same ↦ absurd (
          both (
            sym free
            ∙ ap (λ k. lookup k s.cache.inflight) ((text_beq_iff (ranks_key id) key).0 same)
            ∙ h))
    ]
      where
        both : none ≡ some t → ⊥
        both e = cc

    led :
        (leader : Option ℕ)
        → lookup (ranks_key id) s.cache.inflight ≡ leader
        → IsEntered (lead_or_follow leader u id gen cached s)
    led (some leader) found = stepped_aside s u id (following leader cached) (λ key. refl) inv
    led none free =
        moved s u id (leading gen cached) (insert (ranks_key id) u s.cache.inflight)
          (λ key h. lookup-insert (ranks_key id) key u s.cache.inflight ∙ rw h refl)
          (λ t key _ h.
            lookup-insert (ranks_key id) key u s.cache.inflight
            ∙ rw (taken t key free (inv t key h)) (inv t key h))
join-IsEntered other u s inv = inv

store_result-inflight :
    (json : Json) (fails : Bool) (key : Text) (gen now : ℕ) (r : Result LookupError Ranks)
    (c : CachedProvider)
    → (store_result json fails key gen now r c).inflight ≡ c.inflight
unfolding store_result
store_result-inflight json fails key gen now (ok ranks) c = refl
store_result-inflight json fails key gen now (err e) c = refl

fetched-IsEntered :
    (json : Json) (r : Result LookupError Ranks) (fails : Bool) (now : ℕ)
    (o : Option (PlayerIdentity × Phase)) (u : ℕ) (s : Lookups)
    → lookup u s.running ≡ o
    → IsEntered s
    → IsEntered (fetched json r fails now o u s)
fetched-IsEntered json r fails now (some (id, leading gen cached)) u s found inv =
    rw (store_result-inflight json fails (ranks_key id) gen now r s.cache) (
      moved s u id (finishing cached r) s.cache.inflight
        (λ key h. inv u key (ap (leads key) found ∙ h)) (λ t key _ h. inv t key h))
fetched-IsEntered json r fails now other u s found inv = inv

delete-IsEntered :
    (now : ℕ) (o : Option (PlayerIdentity × Phase)) (u : ℕ) (s : Lookups)
    → lookup u s.running ≡ o
    → IsEntered s
    → IsEntered (delete now o u s)
delete-IsEntered now (some (id, finishing cached r)) u s found inv =
    moved s u id (returned (answer cached r now)) (remove (ranks_key id) s.cache.inflight)
      (λ key h. absurd (ground (arith, h)))
      (λ t key other h.
        lookup-remove (ranks_key id) key s.cache.inflight
        ∙ rw (foreign t key other (inv t key h)) (inv t key h))
  where
    foreign :
        (t : ℕ) (key : Text)
        → (u == t) ≡ false
        → lookup key s.cache.inflight ≡ some t
        → (ranks_key id == key) ≡ false
    foreign t key other h = elim (Bool-cases (ranks_key id == key)) [
      | inr distinct ↦ distinct
      | inl same ↦ absurd (both (sym (inv u key (ap (leads key) found ∙ same)) ∙ h))
    ]
      where
        both : some u ≡ some t → ⊥
        both e = ground (arith, e, other)
delete-IsEntered now other u s found inv = inv

wake-IsEntered :
    (now : ℕ) (o : Option (PlayerIdentity × Phase)) (u : ℕ) (s : Lookups)
    → IsEntered s
    → IsEntered (wake now o u s)
wake-IsEntered now (some (id, following leader cached)) u s inv = awake (lookup leader s.done)
  where
    awake : (r : Option (Result LookupError Ranks)) → IsEntered (woken r now u id cached s)
    awake none = inv
    awake (some r) = stepped_aside s u id (returned (answer cached r now)) (λ key. refl) inv
wake-IsEntered now other u s inv = inv

give_up-IsEntered :
    (e : Text) (now : ℕ) (o : Option (PlayerIdentity × Phase)) (u : ℕ) (s : Lookups)
    → IsEntered s
    → IsEntered (give_up e now o u s)
give_up-IsEntered e now (some (id, following leader cached)) u s inv =
    stepped_aside s u id (returned (answer cached (err (cancelled e)) now)) (λ key. refl) inv
give_up-IsEntered e now other u s inv = inv

step-IsEntered : (json : Json) (s : Lookups) (a : Act) → IsEntered s → IsEntered (step json s a)
unfolding step invalidate
step-IsEntered json s act_invalidate inv = inv
step-IsEntered json s (act_enter t id) inv = enter-IsEntered (lookup t s.running) t id s inv
step-IsEntered json s (act_read t fails now) inv =
    read-IsEntered json fails now (lookup t s.running) t s inv
step-IsEntered json s (act_join t) inv = join-IsEntered (lookup t s.running) t s inv
step-IsEntered json s (act_fetched t r fails now) inv =
    fetched-IsEntered json r fails now (lookup t s.running) t s refl inv
step-IsEntered json s (act_delete t now) inv =
    delete-IsEntered now (lookup t s.running) t s refl inv
step-IsEntered json s (act_wake t now) inv = wake-IsEntered now (lookup t s.running) t s inv
step-IsEntered json s (act_cancel t e now) inv =
    give_up-IsEntered e now (lookup t s.running) t s inv

run-IsEntered :
    (json : Json) (s : Lookups) (acts : List Act) → IsEntered s → IsEntered (run json s acts)
unfolding run
run-IsEntered json s [] inv = inv
run-IsEntered json s (a ∷ acts) inv =
    run-IsEntered json (step json s a) acts (step-IsEntered json s a inv)

idle-IsEntered : (c : CachedProvider) → IsEntered (idle c)
unfolding idle lookup
idle-IsEntered c t key h = absurd (ground (arith, h))

-- However lookups, their upstream calls, cancellations and Invalidate interleave, no two lookups wait
-- for the inner provider for the same player at once.
pub single_flight :
    (json : Json) (c : CachedProvider) (acts : List Act) (t u : ℕ) (key : Text)
    → calls_upstream key (lookup t (run json (idle c) acts).running) ≡ true
    → calls_upstream key (lookup u (run json (idle c) acts).running) ≡ true
    → t ≡ u
single_flight json c acts t u key h k = one_leader (
    sym (entered t (leads_of_calls_upstream key _ h)) ∙ entered u (leads_of_calls_upstream key _ k))
  where
    entered :
        (v : ℕ)
        → leads key (lookup v (run json (idle c) acts).running) ≡ true
        → lookup key (run json (idle c) acts).cache.inflight ≡ some v
    entered v led = run-IsEntered json (idle c) acts (idle-IsEntered c) v key led

    one_leader : some t ≡ some u → t ≡ u
    one_leader e = ground (arith, e)
