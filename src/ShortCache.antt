-- ===== src/ShortCache.antt =====
-- frontend/lib/shortCache.ts: the answers of slow loaders, kept for a short time. A promise is its
-- number in the order in which the promises were made, and a Map is the list of its entries in the
-- order in which they were inserted. A call's work up to its `await` is one step, and the
-- handler of a loader's failure is another.
pub mod Eviction
pub mod Loadings
pub mod Answers
mod Tests
use xdcid.Common.{
  ℕ, zero, suc, ◌+◌, min, max, Bool, true, false, ◌&&◌, not, Option, none, some, List, [], ◌∷◌,
  ◌++◌, Text, length, find, filter, Number, int, neg, is_safe_integer, leb, ltb, ◌==◌,
  if◌then◌else◌, has_key,
}

pub record CacheEntry : Type 0 where
  pub key : Text
  pub expires_at : ℕ
  pub promise : ℕ

-- The entries, and the number of the next promise.
pub record Cache : Type 0 where
  pub entries : List CacheEntry
  pub next_promise : ℕ

abbrev pub max_cache_entries : ℕ
max_cache_entries = 500

-- The number that `Number(value)` gives is the first argument.
pub bounded_integer : Number → ℕ → ℕ → ℕ → ℕ
bounded_integer (int n) fallback_value minimum maximum =
    if is_safe_integer (int n) then min maximum (max minimum n) else fallback_value
bounded_integer (neg n) fallback_value minimum maximum =
    if is_safe_integer (neg n) then min maximum minimum else fallback_value
bounded_integer Number.other fallback_value minimum maximum = fallback_value

abbrev pub api_cache_ttl_ms : Number → ℕ
api_cache_ttl_ms configured = bounded_integer configured 15_000 1_000 60_000

-- `get` and `delete` of a Map.
abbrev pub get_entry : Text → List CacheEntry → Option CacheEntry
get_entry k es = find (has_key CacheEntry.key k) es

abbrev pub delete_entry : Text → List CacheEntry → List CacheEntry
delete_entry k es = filter (λ e. not (has_key CacheEntry.key k e)) es

-- The loop that deletes the oldest entry while the cache is full; `none` when the fuel does not
-- suffice.
unfoldable pub evict : ℕ → List CacheEntry → Option (List CacheEntry)
evict zero es = none
evict (suc fuel) [] = some []
evict (suc fuel) (e ∷ es) =
    let rest = evict fuel (delete_entry e.key (e ∷ es)) in
    if leb max_cache_entries (length (e ∷ es)) then rest else some (e ∷ es)

-- One turn for each entry, and one that finds that the loop is done.
unfoldable pub prune_cache : ℕ → List CacheEntry → Option (List CacheEntry)
prune_cache now es =
    let live = filter (λ e. ltb now e.expires_at) es in evict (suc (length live)) live

-- The rest of a call that found nothing to reuse: its loader's promise is stored behind the others.
unfoldable pub load : ℕ → Text → ℕ → List CacheEntry → ℕ → Option (Cache × ℕ)
unfolding prune_cache
load ttl k now es promise = elim (prune_cache now es) [
  | none ↦ none
  | some kept ↦
      let stored : CacheEntry = record { key = k; expires_at = now + ttl; promise = promise } in
      some (record { entries = kept ++ (stored ∷ []); next_promise = promise + 1 }, promise)
]

-- The cache after the call, and the promise that it waits for.
unfoldable pub with_short_cache : ℕ → Text → ℕ → Cache → Option (Cache × ℕ)
unfolding load
with_short_cache ttl k now c = elim (get_entry k c.entries) [
  | some cached ↦
      if ltb now cached.expires_at
      then some (c, cached.promise)
      else load ttl k now (delete_entry k c.entries) c.next_promise
  | none ↦ load ttl k now c.entries c.next_promise
]

is_promise : ℕ → Option CacheEntry → Bool
is_promise promise none = false
is_promise promise (some e) = e.promise == promise

-- What a call that waits for its own loader does when that fails.
unfoldable pub load_failed : Text → ℕ → Cache → Cache
unfolding is_promise
load_failed k promise c = record c {
  entries =
      if is_promise promise (get_entry k c.entries) then delete_entry k c.entries else c.entries;
}

-- The module's state before any call.
abbrev pub empty_cache : Cache
empty_cache = record { entries = []; next_promise = 0 }
