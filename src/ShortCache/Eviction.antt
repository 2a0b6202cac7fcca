-- ===== src/ShortCache/Eviction.antt =====
-- The loop that makes room in a full cache.
use xdcid.Common.{
  ℕ, zero, suc, ◌-◌, ◌≡◌, ◌<◌, refl, inl, inr, false, some, List, [], ◌∷◌, length, drop, filter,
  any, All, leb, ltb, arith, Bool-cases, has_key, Distinct, Distinct-filter, text_eq_self,
}
use xdcid.ShortCache.{CacheEntry, delete_entry, evict, prune_cache}

-- Deleting a key that no entry has changes nothing.
pub delete_absent :
    (k : _) (es : List CacheEntry)
    → any (has_key CacheEntry.key k) es ≡ false
    → delete_entry k es ≡ es
delete_absent k [] e = refl
delete_absent k (x ∷ xs) e = ground (arith, delete_absent k xs)

delete_first :
    (e : CacheEntry) (es : List CacheEntry)
    → Distinct CacheEntry.key (e ∷ es)
    → delete_entry e.key (e ∷ es) ≡ es
delete_first e es (d, ds) = ground (arith, text_eq_self e.key, delete_absent e.key es d)

-- The loop returns for every fuel above the number of the entries.
evict-drop :
    (fuel : ℕ) (es : List CacheEntry)
    → Distinct CacheEntry.key es
    → length es < fuel
    → evict fuel es ≡ some (drop (length es - 499) es)
unfolding evict
evict-drop zero es d h = absurd (omega arith)
evict-drop (suc fuel) [] d h = refl
evict-drop (suc fuel) (e ∷ es) (d, ds) h = elim (Bool-cases (leb 500 (length (e ∷ es)))) [
  | inl full ↦
      let one_more : suc (length es) - 499 ≡ suc (length es - 499) = ground arith in
      rw (full, delete_first e es (d, ds), evict-drop fuel es ds (omega arith), one_more) refl
  | inr room ↦ let none_left : suc (length es) - 499 ≡ 0 = ground arith in rw (room, none_left) refl
]

abbrev pub live_entries : ℕ → List CacheEntry → List CacheEntry
live_entries now es = filter (λ e. ltb now e.expires_at) es

-- Pruning a cache whose keys are distinct always ends, and what it leaves is the newest 499 of the
-- entries that have not expired, in their order.
pub prune_cache-drop :
    (now : ℕ) (es : List CacheEntry)
    → Distinct CacheEntry.key es
    → prune_cache now es ≡ some (drop (length (live_entries now es) - 499) (live_entries now es))
unfolding prune_cache
prune_cache-drop now es d =
    evict-drop (suc (length (live_entries now es))) (live_entries now es)
      (Distinct-filter CacheEntry.key _ es d) (omega arith)

pub length-drop : (n : ℕ) (es : List CacheEntry) → length (drop n es) ≡ length es - n
length-drop zero es = omega arith
length-drop (suc n) [] = omega arith
length-drop (suc n) (e ∷ es) = omega (arith, length-drop n es)

module _ {κ} (P : CacheEntry → Type κ) where
  pub All-drop : (n : ℕ) (es : List CacheEntry) → All P es → All P (drop n es)
  All-drop zero es h = h
  All-drop (suc n) [] h = tt
  All-drop (suc n) (e ∷ es) (h, hs) = All-drop n es hs

pub Distinct-drop :
    (n : ℕ) (es : List CacheEntry)
    → Distinct CacheEntry.key es
    → Distinct CacheEntry.key (drop n es)
Distinct-drop zero es d = d
Distinct-drop (suc n) [] d = tt
Distinct-drop (suc n) (e ∷ es) (d, ds) = Distinct-drop n es ds
