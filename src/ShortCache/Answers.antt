-- ===== src/ShortCache/Answers.antt =====
-- What the callers of the cache are given, over a history of calls and failures.
use xdcid.Common.{
  ℕ, Runs, if_either, simulate, is_some, ◌≡◌, ◌≤◌, refl, inl, inr, true, not, some, List, [], Text,
  All-find, find_holds, none-any, any-filter-not, subst, sym, length-update, length-filter-le,
  All-filter, Distinct-filter, length, any, update, All, ltb, arith, Bool-cases, Option-cases,
  has_key, Distinct,
}
use xdcid.ShortCache.{
  CacheEntry, Cache, empty_cache, get_entry, delete_entry, load, with_short_cache, load_failed,
  is_promise,
}
use xdcid.ShortCache.Eviction.{prune_cache-drop}
use xdcid.ShortCache.Loadings.{
  Loading, started, Event, asks, is_loading, mark_failed, Allows, loads, reuses, forgets, Step,
  calls, rejects, backs, Agrees,
}
use xdcid.ShortCache.Loadings.Entries.{load-Agrees, reused, failed-apart, failed-backed}

-- The step of a call that waits for a loader of its own.
load-Allows :
    (ttl : ℕ) (k : Text) (now promise : ℕ) (es : List CacheEntry) (c' : Cache) (ls : List Loading)
    → (promise ≡ length ls) × Agrees ttl c' (started k now ls)
    → (ls' : List Loading) × Allows ttl ls (asks k now promise) ls' × Agrees ttl c' ls'
load-Allows ttl k now promise es c' ls (same, a) = (
  started k now ls,
  subst (λ n. Allows ttl ls (asks k now n) (started k now ls)) (sym same) (loads k now),
  a,
)

call-follows :
    (ttl : ℕ) (c c' : Cache) (k : Text) (now promise : ℕ) (ls : List Loading)
    → Agrees ttl c ls
    → with_short_cache ttl k now c ≡ some (c', promise)
    → (ls' : List Loading) × Allows ttl ls (asks k now promise) ls' × Agrees ttl c' ls'
unfolding with_short_cache
call-follows ttl c c' k now promise ls a e =
    let counted = a.counted in
    elim (Option-cases (get_entry k c.entries)) [
      | inl missing ↦ load-Allows ttl k now promise c.entries c' ls (
          load-Agrees ttl k now c.entries c' promise ls a.distinct (none-any _ c.entries missing)
            a.backed (ground (arith, missing, counted, e)))
      | inr (cached, found) ↦ elim (Bool-cases (ltb now cached.expires_at)) [
        | inl fresh ↦
            let same : cached.promise ≡ promise = ground (arith, found, fresh, e) in
            let kept : c ≡ c' = ground (arith, found, fresh, e) in
            let backed =
              All-find (λ x. any (backs ttl x) ls ≡ true) _ c.entries cached a.backed found in
            (
              ls,
              reuses k now promise (
                  reused ttl k now promise cached ls (find_holds _ c.entries cached found) fresh
                    same backed),
              subst (λ x. Agrees ttl x ls) kept a,
            )
        | inr stale ↦ load-Allows ttl k now promise (delete_entry k c.entries) c' ls (
            load-Agrees ttl k now (delete_entry k c.entries) c' promise ls
              (Distinct-filter CacheEntry.key _ c.entries a.distinct)
              (any-filter-not (has_key CacheEntry.key k) c.entries)
              (All-filter _ _ c.entries a.backed) (ground (arith, found, stale, counted, e)))
      ]
    ]

follow :
    (ttl : ℕ) (c c' : Cache) (e : Event) (ls : List Loading)
    → Agrees ttl c ls
    → Step ttl c e c'
    → (ls' : List Loading) × Allows ttl ls e ls' × Agrees ttl c' ls'
unfolding load_failed
follow ttl c c' _ ls a (calls k now promise e) = call-follows ttl c c' k now promise ls a e
follow ttl c _ _ ls a (rejects k promise) =
    let others = λ (x : CacheEntry). not (has_key CacheEntry.key k x) in
    (
      update (is_loading k promise) mark_failed ls,
      forgets k promise,
      record {
        counted = omega (arith, a.counted, length-update (is_loading k promise) mark_failed ls);
        distinct =
            ground (arith, a.distinct, Distinct-filter CacheEntry.key others c.entries a.distinct);
        short = ground (arith, a.short, length-filter-le others c.entries);
        backed =
            failed-backed ttl k promise ls (load_failed k promise c).entries
              (failed-apart k promise c a.distinct)
              (if_either (All (λ x. any (backs ttl x) ls ≡ true))
                (is_promise promise (get_entry k c.entries))
                (All-filter _ others c.entries a.backed) a.backed);
      },
    )

start-Agrees : (ttl : ℕ) → Agrees ttl empty_cache []
start-Agrees ttl = record { counted = refl; distinct = tt; short = omega arith; backed = tt }

-- Every call on a cache whose keys are distinct returns.
pub call_returns :
    (ttl : ℕ) (k : Text) (now : ℕ) (c : Cache)
    → Distinct CacheEntry.key c.entries
    → is_some (with_short_cache ttl k now c) ≡ true
unfolding with_short_cache load
call_returns ttl k now c d = ground (
  arith,
  prune_cache-drop now c.entries d,
  prune_cache-drop now (delete_entry k c.entries) (Distinct-filter CacheEntry.key _ c.entries d),
)

-- Whatever callers ask and whichever loaders fail, in any order: every caller waits for a loader
-- called just now, or for one that was called for the same key less than the lifetime before the
-- question and has not failed; every question is answered; and the cache never has more than 500 entries.
pub answers-IsFresh :
    (ttl : ℕ) (c : Cache) (history : List Event) (k : Text) (now : ℕ)
    → Runs (Step ttl) empty_cache history c
    → ((ls : List Loading) × Runs (Allows ttl) [] history ls)
      × (is_some (with_short_cache ttl k now c) ≡ true)
      × (length c.entries ≤ 500)
answers-IsFresh ttl c history k now r =
    let (ls, allowed, a) =
      simulate (Agrees ttl) (λ x y e l. follow ttl x y e l) [] (start-Agrees ttl) r in
    ((ls, allowed), call_returns ttl k now c a.distinct, a.short)
