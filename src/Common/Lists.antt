-- ===== src/Common/Lists.antt =====
-- Lists measured by native numbers, the array methods that the source uses, and predicates on lists.
use Prim.Native.Nat.{ℕ, zero, suc, ◌+◌, ◌≤◌}
use mathlib.Core.Path.{◌≡◌, refl}
use mathlib.Core.Bool.{Bool, true, false, ◌&&◌, ◌||◌, not}
use mathlib.Core.List.{List, [], ◌∷◌, ◌++◌, map}
use mathlib.Core.Option.{Option, none, some}
use native.Mathlib.Omega.{arith}
use xdcid.Common.Tests.{if◌then◌else◌}

module _ {ℓ} {A : Type ℓ} where
  abbrev pub length : List A → ℕ
  length [] = 0
  length (x ∷ xs) = suc (length xs)

  abbrev pub take : ℕ → List A → List A
  take zero xs = []
  take (suc n) [] = []
  take (suc n) (x ∷ xs) = x ∷ take n xs

  abbrev pub drop : ℕ → List A → List A
  drop zero xs = xs
  drop (suc n) [] = []
  drop (suc n) (x ∷ xs) = drop n xs

  -- `filter`, `find`, `every` and `some` of an array.
  abbrev pub filter : (A → Bool) → List A → List A
  filter p [] = []
  filter p (x ∷ xs) = if p x then x ∷ filter p xs else filter p xs

  abbrev pub find : (A → Bool) → List A → Option A
  find p [] = none
  find p (x ∷ xs) = if p x then some x else find p xs

  abbrev pub all : (A → Bool) → List A → Bool
  all p [] = true
  all p (x ∷ xs) = p x && all p xs

  abbrev pub any : (A → Bool) → List A → Bool
  any p [] = false
  any p (x ∷ xs) = p x || any p xs

  -- `UPDATE … SET f WHERE p`.
  abbrev pub update : (A → Bool) → (A → A) → List A → List A
  update p f [] = []
  update p f (x ∷ xs) = (if p x then f x else x) ∷ update p f xs

  abbrev pub All {κ} : (A → Type κ) → List A → Type κ
  All P [] = Unit
  All P (x ∷ xs) = P x × All P xs

module _ {ℓ} {A : Type ℓ} where
  pub length-append : (xs ys : List A) → length (xs ++ ys) ≡ length xs + length ys
  length-append [] ys = omega arith
  length-append (x ∷ xs) ys = omega (arith, length-append xs ys)

  pub length-filter-le : (p : A → Bool) (xs : List A) → length (filter p xs) ≤ length xs
  length-filter-le p [] = omega arith
  length-filter-le p (x ∷ xs) = ground (arith, length-filter-le p xs)

  pub length-take-le : (n : ℕ) (xs : List A) → length (take n xs) ≤ n
  length-take-le zero xs = omega arith
  length-take-le (suc n) [] = omega arith
  length-take-le (suc n) (x ∷ xs) = omega (arith, length-take-le n xs)

  pub length-update : (p : A → Bool) (f : A → A) (xs : List A) → length (update p f xs) ≡ length xs
  length-update p f [] = refl
  length-update p f (x ∷ xs) = omega (arith, length-update p f xs)

  pub find_holds : (p : A → Bool) (xs : List A) (a : A) → find p xs ≡ some a → p a ≡ true
  find_holds p [] a e = cc
  find_holds p (x ∷ xs) a e = ground (arith, find_holds p xs a)

  pub filter-All : (p : A → Bool) (xs : List A) → All (λ x. p x ≡ true) (filter p xs)
  filter-All p [] = tt
  filter-All p (x ∷ xs) = ground (arith, filter-All p xs)

  module _ {κ} (P : A → Type κ) where
    pub All-filter : (p : A → Bool) (xs : List A) → All P xs → All P (filter p xs)
    All-filter p [] h = tt
    All-filter p (x ∷ xs) (h, hs) = ground (arith, All-filter p xs hs)

    pub All-find : (p : A → Bool) (xs : List A) (a : A) → All P xs → find p xs ≡ some a → P a
    All-find p [] a h e = absurd (cc e)
    All-find p (x ∷ xs) a (h, hs) e = ground (arith, All-find p xs a hs)

    pub All-take : (n : ℕ) (xs : List A) → All P xs → All P (take n xs)
    All-take zero xs h = tt
    All-take (suc n) [] h = tt
    All-take (suc n) (x ∷ xs) (h, hs) = (h, All-take n xs hs)

    pub All-append : (xs ys : List A) → All P xs → All P ys → All P (xs ++ ys)
    All-append [] ys _ k = k
    All-append (x ∷ xs) ys (h, hs) k = (h, All-append xs ys hs k)

-- One element satisfies the first predicate, and every other the second.
pub data ExactlyOne {ℓ κ} {A : Type ℓ} (P Q : A → Type κ) : List A → Type (ℓ ⊔ κ) where
  this : {x : A} {xs : List A} → P x → All Q xs → ExactlyOne P Q (x ∷ xs)
  later : {x : A} {xs : List A} → Q x → ExactlyOne P Q xs → ExactlyOne P Q (x ∷ xs)

module _ {ℓ} {A : Type ℓ} where
  pub any-filter : (q p : A → Bool) (xs : List A) → any q xs ≡ false → any q (filter p xs) ≡ false
  any-filter q p [] e = refl
  any-filter q p (x ∷ xs) e = ground (arith, any-filter q p xs)

  pub find-none : (p : A → Bool) (xs : List A) → any p xs ≡ false → find p xs ≡ none
  find-none p [] e = refl
  find-none p (x ∷ xs) e = ground (arith, find-none p xs)

  pub any-find : (p : A → Bool) (xs : List A) (a : A) → find p xs ≡ some a → any p xs ≡ true
  any-find p [] a e = absurd (cc e)
  any-find p (x ∷ xs) a e = ground (arith, any-find p xs a)

  pub All-mono {κ μ} :
      {P : A → Type κ} {Q : A → Type μ} (f : (x : A) → P x → Q x) (xs : List A)
      → All P xs
      → All Q xs
  All-mono f [] h = tt
  All-mono f (x ∷ xs) (h, hs) = (f x h, All-mono f xs hs)

  pub any_mono :
      (p q : A → Bool) (f : (x : A) → p x ≡ true → q x ≡ true) (xs : List A)
      → any p xs ≡ true
      → any q xs ≡ true
  any_mono p q f [] e = absurd (cc e)
  any_mono p q f (x ∷ xs) e = ground (arith, f x, any_mono p q f xs)

  pub any-append : (p : A → Bool) (xs ys : List A) → any p (xs ++ ys) ≡ (any p xs || any p ys)
  any-append p [] ys = refl
  any-append p (x ∷ xs) ys = ground (arith, any-append p xs ys)

  -- A change of the elements that a test does not find leaves its answer.
  pub any-update :
      (p q : A → Bool) (f : A → A) (apart : (x : A) → p x ≡ true → q x ≡ false) (xs : List A)
      → any p xs ≡ true
      → any p (update q f xs) ≡ true
  any-update p q f apart [] e = absurd (cc e)
  any-update p q f apart (x ∷ xs) e = ground (arith, apart x, any-update p q f apart xs)

  pub any-drop : (p : A → Bool) (n : ℕ) (xs : List A) → any p xs ≡ false → any p (drop n xs) ≡ false
  any-drop p zero xs e = e
  any-drop p (suc n) [] e = refl
  any-drop p (suc n) (x ∷ xs) e = any-drop p n xs (ground arith)

  -- What a search that finds nothing says of every element.
  pub none-any : (p : A → Bool) (xs : List A) → find p xs ≡ none → any p xs ≡ false
  none-any p [] e = refl
  none-any p (x ∷ xs) e = ground (arith, none-any p xs)

  pub any-filter-not : (p : A → Bool) (xs : List A) → any p (filter (λ x. not (p x)) xs) ≡ false
  any-filter-not p [] = refl
  any-filter-not p (x ∷ xs) = ground (arith, any-filter-not p xs)

  -- What a search finds after an update of the rows that it looks for, and of others.
  pub find-update :
      (p : A → Bool) (f : A → A) (keeps : (x : A) → p x ≡ true → p (f x) ≡ true) (xs : List A)
      (a : A)
      → find p xs ≡ some a
      → find p (update p f xs) ≡ some (f a)
  find-update p f keeps [] a e = absurd (cc e)
  find-update p f keeps (x ∷ xs) a e = ground (arith, keeps x, find-update p f keeps xs a)

  pub find-update_other :
      (p q : A → Bool) (f : A → A) (apart : (x : A) → q x ≡ true → p x ≡ false)
      (still : (x : A) → q x ≡ true → p (f x) ≡ false) (xs : List A)
      → find p (update q f xs) ≡ find p xs
  find-update_other p q f apart still [] = refl
  find-update_other p q f apart still (x ∷ xs) =
      ground (arith, apart x, still x, find-update_other p q f apart still xs)

pub length-map {ℓ κ} :
    {A : Type ℓ} {B : Type κ} (f : A → B) (xs : List A) → length (map f xs) ≡ length xs
length-map f [] = refl
length-map f (x ∷ xs) = omega (arith, length-map f xs)

pub all_All {ℓ} :
    {A : Type ℓ} (p : A → Bool) (xs : List A) → all p xs ≡ true → All (λ x. p x ≡ true) xs
all_All p [] e = tt
all_All p (x ∷ xs) e = ground (arith, all_All p xs)
