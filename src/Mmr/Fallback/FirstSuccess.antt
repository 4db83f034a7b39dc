-- ===== src/Mmr/Fallback/FirstSuccess.antt =====
-- Without cancellation the supporting providers are called in order up to the first success.
use oof_rl.Prelude.{
  ℕ, suc, ◌≡◌, refl, ap, ◌∙◌, Bool, true, false, Option, none, some, List, [], ◌∷◌, ◌++◌, All, keep,
  arith, Bool-cases, inl, inr,
}
use oof_rl.Prelude.Results.{Result, ok, err}
use oof_rl.Mmr.{PlayerIdentity, Ranks, LookupError, Provider}
use oof_rl.Mmr.Fallback.{
  Context, add_call, after_call, wait_error, last_result, lookup_from, fallback_lookup,
}

abbrev pub supporting : PlayerIdentity → List Provider → List Provider
supporting id ps = keep (λ (p : Provider). p.supports id.platform) ps

abbrev pub Fails : PlayerIdentity → Provider → Type 0
Fails id p = (e : LookupError) × (p.answer id ≡ err e)

-- The loop over the providers that are left once the others are skipped.
abbrev try_each :
    PlayerIdentity → List Provider → Option LookupError → List Provider × Result LookupError Ranks
try_each id [] last = ([], last_result id.platform last)
try_each id (p ∷ ps) last =
    add_call p (after_call (p.answer id) none (λ e. try_each id ps (some e)))

module _ (ctx : Context) (uncancelled : (i : ℕ) → ctx i ≡ none) where
  no_wait_error : (i : ℕ) (last : Option LookupError) → wait_error ctx i last ≡ none
  no_wait_error i none = refl
  no_wait_error i (some e) = uncancelled i

  lookup_from-try_each :
      (i : ℕ) (id : PlayerIdentity) (ps : List Provider) (last : Option LookupError)
      → lookup_from ctx i id ps last ≡ try_each id (supporting id ps) last
  unfolding lookup_from
  lookup_from-try_each i id [] last = refl
  lookup_from-try_each i id (p ∷ ps) last = elim (Bool-cases (p.supports id.platform)) [
    | inr skip ↦ rw skip (lookup_from-try_each i id ps last)
    | inl supported ↦
        rw (supported, no_wait_error i last)
          (ap (add_call p)
            (called (p.answer id) (λ e. lookup_from-try_each (suc (suc i)) id ps (some e))))
  ]
    where
      called :
          (r : Result LookupError Ranks)
          → ((e : LookupError)
              → lookup_from ctx (suc (suc i)) id ps (some e)
                ≡ try_each id (supporting id ps) (some e))
          → after_call r (ctx (suc i)) (λ e. lookup_from ctx (suc (suc i)) id ps (some e))
            ≡ after_call r none (λ e. try_each id (supporting id ps) (some e))
      called (ok ranks) later = refl
      called (err e) later = rw (uncancelled (suc i)) (later e)

-- The search ends with this result, the last one if nothing is left to try.
abbrev pub ends_search : Result LookupError Ranks → List Provider → Bool
ends_search (ok ranks) after = true
ends_search (err e) [] = true
ends_search (err e) (p ∷ after) = false

try_each-append :
    (id : PlayerIdentity) (before after : List Provider) (p : Provider) (last : Option LookupError)
    (r : Result LookupError Ranks)
    → All (Fails id) before
    → p.answer id ≡ r
    → ends_search r after ≡ true
    → try_each id (before ++ (p ∷ after)) last ≡ (before ++ (p ∷ []), r)
try_each-append id [] after p last r h answer ends = rw answer (last_call r after ends)
  where
    last_call :
        (r : Result LookupError Ranks) (after : List Provider)
        → ends_search r after ≡ true
        → add_call p (after_call r none (λ e. try_each id after (some e))) ≡ (p ∷ [], r)
    last_call (ok ranks) after ends = refl
    last_call (err e) [] ends = refl
    last_call (err e) (q ∷ after) ends = absurd (not_last ends)
      where
        not_last : false ≡ true → ⊥
        not_last f = ground (arith, f)
try_each-append id (q ∷ before) after p last r h answer ends =
    let (e, fails) = h.0 in
    rw fails (ap (add_call q) (try_each-append id before after p (some e) r h.1 answer ends))

-- If the context is never cancelled, and of the providers that support the platform all before one
-- fail and this one answers or is the last, then exactly those up to this one are called, in order,
-- and the result is its own, whether the errors of the others are permanent or not.
pub fallback_lookup_lem :
    (ctx : Context) (id : PlayerIdentity) (ps before after : List Provider) (p : Provider)
    (r : Result LookupError Ranks)
    → ((i : ℕ) → ctx i ≡ none)
    → supporting id ps ≡ before ++ (p ∷ after)
    → All (Fails id) before
    → p.answer id ≡ r
    → ends_search r after ≡ true
    → fallback_lookup ctx id ps ≡ (before ++ (p ∷ []), r)
unfolding fallback_lookup
fallback_lookup_lem ctx id [] before after p r uncancelled split h answer ends =
    absurd (some_provider before split)
  where
    some_provider : (before : List Provider) → [] ≡ before ++ (p ∷ after) → ⊥
    some_provider [] e = cc
    some_provider (b ∷ bs) e = cc
fallback_lookup_lem ctx id (q ∷ ps) before after p r uncancelled split h answer ends =
    rw (uncancelled 0) (
      lookup_from-try_each ctx uncancelled 1 id (q ∷ ps) none
      ∙ ap (λ left. try_each id left none) split
      ∙ try_each-append id before after p none r h answer ends)
