-- ===== src/ShortCache/Tests.antt =====
-- The short-lived cache: the theorems at concrete caches.
use xdcid.Common.{
  ℕ, ◌≡◌, ◌≤◌, ◌-◌, refl, true, some, List, [], ◌∷◌, text, int, length, drop, is_some, Runs, stop,
  go,
}
use xdcid.ShortCache.{
  CacheEntry, Cache, empty_cache, prune_cache, with_short_cache, load_failed, api_cache_ttl_ms,
}
use xdcid.ShortCache.Eviction.{live_entries, prune_cache-drop}
use xdcid.ShortCache.Loadings.{Loading, Event, asks, fails, Allows, Step, calls, rejects}
use xdcid.ShortCache.Answers.{answers-IsFresh}

abbrev two_entries : List CacheEntry
two_entries =
    (record { key = text "prices"; expires_at = 90; promise = 0 })
    ∷ (record { key = text "names"; expires_at = 120; promise = 1 })
    ∷ []

prune_cache-drop_example :
    prune_cache 100 two_entries
    ≡ some (drop (length (live_entries 100 two_entries) - 499) (live_entries 100 two_entries))
unfolding xdcid.Common.text_eq
prune_cache-drop_example = prune_cache-drop 100 two_entries (refl, (refl, tt))

ttl_default : api_cache_ttl_ms xdcid.Common.Number.other ≡ 15_000
unfolding xdcid.ShortCache.bounded_integer
ttl_default = refl

ttl_bounded : api_cache_ttl_ms (int 5) ≡ 1_000
unfolding xdcid.ShortCache.bounded_integer
ttl_bounded = refl

-- A loader is called at 10, its promise is reused at 20, and it fails at last.
abbrev one_entry : Cache
one_entry = record {
  entries = (record { key = text "prices"; expires_at = 110; promise = 0 }) ∷ [];
  next_promise = 1;
}

abbrev events : List Event
events = asks (text "prices") 10 0 ∷ asks (text "prices") 20 0 ∷ fails (text "prices") 0 ∷ []

history : Runs (Step 100) empty_cache events (load_failed (text "prices") 0 one_entry)
unfolding with_short_cache xdcid.ShortCache.evict xdcid.Common.text_eq
history = go (calls {c = empty_cache} {c' = one_entry} (text "prices") 10 0 refl) (
    go (calls {c = one_entry} {c' = one_entry} (text "prices") 20 0 refl)
      (go (rejects (text "prices") 0) stop))

answers-IsFresh_example :
    ((ls : List Loading) × Runs (Allows 100) [] events ls)
    × (is_some (with_short_cache 100 (text "names") 30 (load_failed (text "prices") 0 one_entry))
        ≡ true)
    × (length (load_failed (text "prices") 0 one_entry).entries ≤ 500)
answers-IsFresh_example =
    answers-IsFresh 100 (load_failed (text "prices") 0 one_entry) events (text "names") 30 history
