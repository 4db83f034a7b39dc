-- ===== src/Mmr/Fallback.antt =====
-- internal/mmr/fallback.go. A provider's `answer` is what its Lookup returns in this call; `ctx` gives
-- the error of the context at each of its observations, one for each call of ctx.Err() and waitContext.
pub mod FirstSuccess
use oof_rl.Prelude.{
  ℕ, zero, suc, Text, codes, Bool, true, false, ◌||◌, Option, none, some, List, [], ◌∷◌, ◌++◌,
  if◌then◌else◌,
}
use oof_rl.Prelude.Results.{Result, ok, err}
use oof_rl.Mmr.{PlayerIdentity, Ranks, LookupError, no_providers, unsupported, cancelled, Provider}

-- FallbackProvider.Name
unfoldable pub join_names : List Provider → Text
join_names [] = []
join_names (p ∷ []) = p.name
join_names (p ∷ q ∷ ps) = p.name ++ (codes "/" ++ join_names (q ∷ ps))

-- FallbackProvider.Supports
unfoldable pub any_supports : List Provider → Text → Bool
any_supports [] platform = false
any_supports (p ∷ ps) platform = p.supports platform || any_supports ps platform

-- The context's error at observation `i`.
abbrev pub Context : Type 0
Context = ℕ → Option Text

abbrev add_call :
    Provider → List Provider × Result LookupError Ranks → List Provider × Result LookupError Ranks
add_call p (calls, r) = (p ∷ calls, r)

-- What follows a failed call: the test of the context, else the rest of the loop.
abbrev pub after_failure :
    Option Text
    → List Provider × Result LookupError Ranks
    → List Provider × Result LookupError Ranks
after_failure (some e) rest = ([], err (cancelled e))
after_failure none rest = rest

abbrev pub after_call :
    Result LookupError Ranks
    → Option Text
    → (LookupError → List Provider × Result LookupError Ranks)
    → List Provider × Result LookupError Ranks
after_call (ok ranks) ctx_error later = ([], ok ranks)
after_call (err e) ctx_error later = after_failure ctx_error (later e)

abbrev pub after_wait :
    Option Text
    → List Provider × Result LookupError Ranks
    → List Provider × Result LookupError Ranks
after_wait (some e) called = ([], err (cancelled e))
after_wait none called = called

abbrev pub wait_error : Context → ℕ → Option LookupError → Option Text
wait_error ctx i none = none
wait_error ctx i (some e) = ctx i

abbrev pub last_result : Text → Option LookupError → Result LookupError Ranks
last_result platform none = err (unsupported platform)
last_result platform (some e) = err e

-- The loop: the providers that were called, and the result. `last` is lastErr, and tried > 0 exactly
-- if it is set.
unfoldable pub lookup_from :
    Context
    → ℕ
    → PlayerIdentity
    → List Provider
    → Option LookupError
    → List Provider × Result LookupError Ranks
lookup_from ctx i id [] last = ([], last_result id.platform last)
lookup_from ctx i id (p ∷ ps) last =
    let skipped = lookup_from ctx i id ps last in
    let failed = λ (e : LookupError). lookup_from ctx (suc (suc i)) id ps (some e) in
    if p.supports id.platform
    then after_wait (wait_error ctx i last)
        (add_call p (after_call (p.answer id) (ctx (suc i)) failed))
    else skipped

-- FallbackProvider.Lookup
unfoldable pub fallback_lookup :
    Context → PlayerIdentity → List Provider → List Provider × Result LookupError Ranks
unfolding lookup_from
fallback_lookup ctx id [] = ([], err no_providers)
fallback_lookup ctx id (p ∷ ps) = after_wait (ctx 0) (lookup_from ctx 1 id (p ∷ ps) none)
