-- ===== src/ShortCache/Loadings/Entries.antt =====
-- What a load and a failure make of the entries and of the loaders that they stand for.
use xdcid.Common.{
  ℕ, ◌+◌, ◌-◌, ◌≡◌, refl, inl, inr, true, false, ◌&&◌, some, List, [], ◌∷◌, ◌++◌, Text, text_eq,
  text_eq_self, text_eq_sym, any-append, any_mono, any-drop, any-filter-not, subst, sym, ap,
  any-update, length-append, All-filter, All-append, All-mono, any-filter, Distinct-filter,
  text_eq_sound, length, drop, filter, any, update, All, ltb, ◌==◌, arith, Bool-cases, has_key,
  Distinct,
}
use xdcid.ShortCache.{CacheEntry, Cache, get_entry, load, load_failed, is_promise}
use xdcid.ShortCache.Eviction.{prune_cache-drop, length-drop, All-drop, Distinct-drop}
use xdcid.ShortCache.Loadings.{Loading, started, is_loading, is_fresh, mark_failed, backs, Agrees}

Distinct-append :
    (e : CacheEntry) (es : List CacheEntry)
    → Distinct CacheEntry.key es
    → any (has_key CacheEntry.key e.key) es ≡ false
    → Distinct CacheEntry.key (es ++ (e ∷ []))
Distinct-append e [] d h = (refl, tt)
Distinct-append e (x ∷ xs) (d, ds) h = (
  ground (arith, any-append (has_key CacheEntry.key x.key) xs (e ∷ []), text_eq_sym e.key x.key),
  Distinct-append e xs ds (ground arith),
)

backs_new :
    (ttl : ℕ) (k : Text) (now : ℕ) (ls : List Loading)
    → any
        (backs ttl (record { key = k; expires_at = now + ttl; promise = length ls }))
        (started k now ls)
      ≡ true
unfolding backs is_loading
backs_new ttl k now ls = ground (
  arith,
  any-append (backs ttl (record { key = k; expires_at = now + ttl; promise = length ls })) ls
      (record { promise = length ls; key = k; started_at = now; failed = false } ∷ []),
  text_eq_self k,
)

pub load-Agrees :
    (ttl : ℕ) (k : Text) (now : ℕ) (es : List CacheEntry) (c' : Cache) (promise : ℕ)
    (ls : List Loading)
    → Distinct CacheEntry.key es
    → any (has_key CacheEntry.key k) es ≡ false
    → All (λ e. any (backs ttl e) ls ≡ true) es
    → load ttl k now es (length ls) ≡ some (c', promise)
    → (promise ≡ length ls) × Agrees ttl c' (started k now ls)
unfolding load
load-Agrees ttl k now es c' promise ls d absent h e =
    let live = filter (λ e. ltb now e.expires_at) es in
    let surplus = length live - 499 in
    let kept = drop surplus live in
    let new : Loading = record { promise = length ls; key = k; started_at = now; failed = false } in
    let stored : CacheEntry = record { key = k; expires_at = now + ttl; promise = length ls } in
    let pruned = prune_cache-drop now es d in
    let same : promise ≡ length ls = ground (arith, pruned, e) in
    let entries : c'.entries ≡ kept ++ (stored ∷ []) = ground (arith, pruned, e) in
    let counted : c'.next_promise ≡ length ls + 1 = ground (arith, pruned, e) in
    let grown = any-append {A = Loading} in
    (
      same,
      record {
        counted = omega (arith, counted, length-append ls (new ∷ []));
        distinct = subst (Distinct CacheEntry.key) (sym entries) (
            Distinct-append stored kept
              (Distinct-drop surplus live (Distinct-filter CacheEntry.key _ es d))
              (any-drop _ surplus live (any-filter _ _ es absent)));
        short =
            omega (
              arith,
              ap length entries,
              length-append kept (stored ∷ []),
              length-drop surplus live,
            );
        backed = subst (All (λ e. any (backs ttl e) (ls ++ (new ∷ [])) ≡ true)) (sym entries) (
            All-append _ kept (stored ∷ [])
              (All-mono (λ x t. ground (arith, t, grown (backs ttl x) ls (new ∷ []))) kept
                (All-drop _ surplus live (All-filter _ _ es h)))
              (backs_new ttl k now ls, tt));
      },
    )

absent_apart :
    (k : Text) (promise : ℕ) (es : List CacheEntry)
    → any (has_key CacheEntry.key k) es ≡ false
    → All (λ e. (text_eq e.key k && e.promise == promise) ≡ false) es
absent_apart k promise [] h = tt
absent_apart k promise (e ∷ es) h = ground (arith, absent_apart k promise es)

-- An entry that is not the one under the key is not of the promise, or is under another key.
kept_apart :
    (k : Text) (promise : ℕ) (es : List CacheEntry)
    → Distinct CacheEntry.key es
    → is_promise promise (get_entry k es) ≡ false
    → All (λ e. (text_eq e.key k && e.promise == promise) ≡ false) es
unfolding is_promise
kept_apart k promise [] d h = tt
kept_apart k promise (e ∷ es) (d, ds) h = elim (Bool-cases (text_eq e.key k)) [
  | inl same ↦
      let key : e.key ≡ k = text_eq_sound e.key k same in
      let absent = subst (λ x. any (has_key CacheEntry.key x) es ≡ false) key d in
      (ground (arith, same, h), absent_apart k promise es absent)
  | inr other ↦ (ground (arith, other), kept_apart k promise es ds (ground (arith, other, h)))
]

-- A failure leaves the entries that are not of its loader.
pub failed-apart :
    (k : Text) (promise : ℕ) (c : Cache)
    → Distinct CacheEntry.key c.entries
    → All (λ e. (text_eq e.key k && e.promise == promise) ≡ false) (load_failed k promise c).entries
unfolding load_failed
failed-apart k promise c d = elim (Bool-cases (is_promise promise (get_entry k c.entries))) [
  | inl cached ↦
      rw cached (absent_apart k promise _ (any-filter-not (has_key CacheEntry.key k) c.entries))
  | inr other ↦ rw other (kept_apart k promise c.entries d other)
]

pub failed-backed :
    (ttl : ℕ) (k : Text) (promise : ℕ) (ls : List Loading) (es : List CacheEntry)
    → All (λ e. (text_eq e.key k && e.promise == promise) ≡ false) es
    → All (λ e. any (backs ttl e) ls ≡ true) es
    → All (λ e. any (backs ttl e) (update (is_loading k promise) mark_failed ls) ≡ true) es
unfolding backs is_loading
failed-backed ttl k promise ls [] _ _ = tt
failed-backed ttl k promise ls (e ∷ es) (h, hs) (b, bs) = (
  any-update (backs ttl e) (is_loading k promise) mark_failed
      (λ l t.
        ground (arith, t, h, ap (λ x. text_eq x k) (text_eq_sound l.key e.key (ground (arith, t)))))
      ls b,
  failed-backed ttl k promise ls es hs bs,
)

-- A live entry under the key is of a loader that may be reused.
pub reused :
    (ttl : ℕ) (k : Text) (now promise : ℕ) (e : CacheEntry) (ls : List Loading)
    → text_eq e.key k ≡ true
    → ltb now e.expires_at ≡ true
    → e.promise ≡ promise
    → any (backs ttl e) ls ≡ true
    → any (is_fresh ttl k now promise) ls ≡ true
unfolding backs is_fresh is_loading
reused ttl k now promise e ls key fresh same b =
    any_mono (backs ttl e) (is_fresh ttl k now promise)
      (λ l t. ground (arith, t, fresh, same, text_eq_sound e.key k key)) ls b
