-- ===== src/ShortCache/Loadings.antt =====
-- The loaders behind a cache: what its callers may be given, and what its entries stand for.
pub mod Entries
use xdcid.Common.{
  ℕ, ◌+◌, Runs, simulate, is_some, ◌-◌, ◌≡◌, ◌≤◌, refl, inl, inr, Bool, true, false, ◌&&◌, not,
  none, some, List, [], ◌∷◌, ◌++◌, Text, text_eq, text_eq_self, text_eq_sym, any-append, any_mono,
  any-drop, none-any, any-filter-not, subst, sym, ap, any-update, length-append, length-update,
  length-filter-le, All-filter, All-append, All-mono, any-filter, Distinct-filter, text_eq_sound,
  length, drop, find, filter, any, update, All, ltb, ◌==◌, arith, Bool-cases, Option-cases, has_key,
  Distinct,
}
use xdcid.ShortCache.{
  CacheEntry, Cache, empty_cache, get_entry, delete_entry, prune_cache, load, with_short_cache,
  load_failed, is_promise,
}
use xdcid.ShortCache.Eviction.{
  prune_cache-drop, length-drop, All-drop, Distinct-drop, delete_absent,
}

-- A loader that was called, without any cache.
pub record Loading : Type 0 where
  pub promise : ℕ
  pub key : Text
  pub started_at : ℕ
  pub failed : Bool

-- A caller asks for a key at a time and waits for a promise, or the loader of a promise fails.
pub data Event : Type 0 where
  asks : (key : Text) (now promise : ℕ) → Event
  fails : (key : Text) (promise : ℕ) → Event

pub is_loading : Text → ℕ → Loading → Bool
is_loading k promise l = l.promise == promise && text_eq l.key k

abbrev pub mark_failed : Loading → Loading
mark_failed l = record l { failed = true }

pub is_fresh : ℕ → Text → ℕ → ℕ → Loading → Bool
unfolding is_loading
is_fresh ttl k now promise l =
    is_loading k promise l && not l.failed && ltb now (l.started_at + ttl)

-- The loaders after one more is called.
abbrev pub started : Text → ℕ → List Loading → List Loading
started k now ls =
    ls ++ (record { promise = length ls; key = k; started_at = now; failed = false } ∷ [])

-- What a caller may be given: a loader called just now, or one that was called for the same key
-- less than the lifetime ago and has not failed.
pub data Allows (ttl : ℕ) : List Loading → Event → List Loading → Type 0 where
  loads :
      {ls : List Loading} (k : Text) (now : ℕ)
      → Allows ttl ls (asks k now (length ls)) (started k now ls)
  reuses :
      {ls : List Loading} (k : Text) (now promise : ℕ)
      → any (is_fresh ttl k now promise) ls ≡ true
      → Allows ttl ls (asks k now promise) ls
  forgets :
      {ls : List Loading} (k : Text) (promise : ℕ)
      → Allows ttl ls (fails k promise) (update (is_loading k promise) mark_failed ls)

-- What the code does.
pub data Step (ttl : ℕ) : Cache → Event → Cache → Type 0 where
  calls :
      {c c' : Cache} (k : Text) (now promise : ℕ)
      → with_short_cache ttl k now c ≡ some (c', promise)
      → Step ttl c (asks k now promise) c'
  rejects :
      {c : Cache} (k : Text) (promise : ℕ) → Step ttl c (fails k promise) (load_failed k promise c)

-- The loader that an entry of the cache stands for.
pub backs : ℕ → CacheEntry → Loading → Bool
unfolding is_loading
backs ttl e l = is_loading e.key e.promise l && not l.failed && (l.started_at + ttl == e.expires_at)

-- Between calls the cache has distinct keys and at most 500 entries, each of a loader that was
-- called and has not failed.
pub record Agrees (ttl : ℕ) (c : Cache) (ls : List Loading) : Type 0 where
  pub counted : c.next_promise ≡ length ls
  pub distinct : Distinct CacheEntry.key c.entries
  pub short : length c.entries ≤ 500
  pub backed : All (λ e. any (backs ttl e) ls ≡ true) c.entries
