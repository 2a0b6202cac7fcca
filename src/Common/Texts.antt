-- ===== src/Common/Texts.antt =====
-- Text as a list of UTF-16 code units, and the string methods that the source uses.
use Prim.Native.Nat.{ℕ, zero, suc, ◌+◌, ◌-◌, ◌/◌, ◌%◌}
use Prim.Native.Char.{code}
use Prim.Native.String.{String}
use mathlib.Core.Path.{◌≡◌, refl, ap, ◌∙◌}
use mathlib.Core.Logic.{◌↔◌, inl, inr}
use mathlib.Core.Bool.{Bool, true, false, ◌&&◌, ◌||◌, not}
use mathlib.Core.List.{List, [], ◌∷◌, ◌++◌, reverse, reverse_aux, reverse-reverse}
use native.Mathlib.Omega.{arith}
use xdcid.Common.Tests.{◌==◌, leb, if◌then◌else◌, ==_self, Bool-cases}
use xdcid.Common.Lists.{all, All, length, take, length-append}

abbrev pub Text : Type 0
Text = List ℕ

-- The code units of an ASCII literal.
abbrev pub text : String → Text
text String.[] = []
text (String.◌∷◌ c s) = code c ∷ text s

-- `a === b`.
unfoldable pub text_eq : Text → Text → Bool
text_eq [] [] = true
text_eq (x ∷ xs) (y ∷ ys) = x == y && text_eq xs ys
text_eq _ _ = false

pub text_eq_sound : (a b : Text) → text_eq a b ≡ true → a ≡ b
unfolding text_eq
text_eq_sound [] [] e = refl
text_eq_sound (x ∷ xs) (y ∷ ys) e = ground (arith, text_eq_sound xs ys)
text_eq_sound _ _ e = cc

pub text_eq_self : (a : Text) → text_eq a a ≡ true
unfolding text_eq
text_eq_self [] = refl
text_eq_self (x ∷ xs) = ground (arith, text_eq_self xs, ==_self x)

pub text_eq_sym : (a b : Text) → text_eq a b ≡ text_eq b a
unfolding text_eq
text_eq_sym [] [] = refl
text_eq_sym [] (y ∷ ys) = refl
text_eq_sym (x ∷ xs) [] = refl
text_eq_sym (x ∷ xs) (y ∷ ys) = ground (arith, text_eq_sym xs ys)

pub text_eq_complete : (a b : Text) → a ≡ b → text_eq a b ≡ true
text_eq_complete a b e = rw e (text_eq_self b)

pub text_eq_iff : (a b : Text) → (text_eq a b ≡ true) ↔ (a ≡ b)
text_eq_iff a b = (text_eq_sound a b, text_eq_complete a b)

-- The white space and line terminators that `trim` strips.
unfoldable pub is_space : ℕ → Bool
is_space c =
    (leb 9 c && leb c 13)
    || c == 0x20
    || c == 0xa0
    || c == 0x1680
    || (leb 0x2000 c && leb c 0x200a)
    || c == 0x2028
    || c == 0x2029
    || c == 0x202f
    || c == 0x205f
    || c == 0x3000
    || c == 0xfeff

unfoldable pub trim_start : Text → Text
unfolding is_space
trim_start [] = []
trim_start (c ∷ s) = if is_space c then trim_start s else c ∷ s

unfoldable pub trim : Text → Text
unfolding trim_start
trim s = reverse (trim_start (reverse (trim_start s)))

unfoldable pub starts_with : Text → Text → Bool
starts_with s [] = true
starts_with [] (c ∷ p) = false
starts_with (d ∷ s) (c ∷ p) = d == c && starts_with s p

unfoldable pub ends_with : Text → Text → Bool
unfolding text_eq
ends_with [] p = text_eq [] p
ends_with (c ∷ s) p = text_eq (c ∷ s) p || ends_with s p

-- `s.slice(0, -n)`.
abbrev pub slice_off : ℕ → Text → Text
slice_off n s = take (length s - n) s

-- `s.split(c)` for a separator of one code unit.
unfoldable pub split_from : ℕ → Text → Text → List Text
split_from sep cur [] = reverse cur ∷ []
split_from sep cur (c ∷ s) =
    let closed = reverse cur ∷ split_from sep [] s in
    let longer = split_from sep (c ∷ cur) s in if c == sep then closed else longer

unfoldable pub split : ℕ → Text → List Text
unfolding split_from
split sep s = split_from sep [] s

abbrev pub NotSpace : ℕ → Type 0
NotSpace c = is_space c ≡ false

All-reverse_aux :
    (xs ys : Text) → All NotSpace xs → All NotSpace ys → All NotSpace (reverse_aux xs ys)
All-reverse_aux [] ys _ k = k
All-reverse_aux (x ∷ xs) ys (h, hs) k = All-reverse_aux xs (x ∷ ys) hs (h, k)

trim_start_lem : (s : Text) → All NotSpace s → trim_start s ≡ s
unfolding trim_start
trim_start_lem [] h = refl
trim_start_lem (c ∷ s) (h, hs) = rw h

-- Nothing is stripped from a text without white space.
pub trim_of_All : (s : Text) → All NotSpace s → trim s ≡ s
unfolding trim
trim_of_All s h =
    rw (trim_start_lem s h, trim_start_lem (reverse s) (All-reverse_aux s [] h tt))
      (reverse-reverse s)

pub ends_with-append : (s p : Text) → ends_with (s ++ p) p ≡ true
unfolding ends_with
ends_with-append [] [] = refl
ends_with-append [] (c ∷ p) = rw (text_eq_self (c ∷ p))
ends_with-append (c ∷ s) p = ground (arith, ends_with-append s p)

take-append : (s p : Text) → take (length s) (s ++ p) ≡ s
take-append [] p = refl
take-append (c ∷ s) p = ap (λ (t : Text). c ∷ t) (take-append s p)

pub slice_off-append : (s p : Text) → slice_off (length p) (s ++ p) ≡ s
slice_off-append s p =
    let cut : length (s ++ p) - length p ≡ length s = omega (arith, length-append s p) in
    ap (λ (n : ℕ). take n (s ++ p)) cut ∙ take-append s p

pub ends_with_sound : (s p : Text) → ends_with s p ≡ true → (t : Text) × (s ≡ t ++ p)
unfolding ends_with
ends_with_sound [] p e = ([], text_eq_sound [] p e)
ends_with_sound (c ∷ s) p e = elim (Bool-cases (text_eq (c ∷ s) p)) [
  | inl same ↦ ([], text_eq_sound (c ∷ s) p same)
  | inr other ↦
      let (t, split) = ends_with_sound s p (ground arith) in (c ∷ t, ap (λ (r : Text). c ∷ r) split)
]

pub starts_with_sound : (s p : Text) → starts_with s p ≡ true → (t : Text) × (s ≡ p ++ t)
unfolding starts_with
starts_with_sound s [] e = (s, refl)
starts_with_sound [] (c ∷ p) e = cc
starts_with_sound (d ∷ s) (c ∷ p) e =
    let (t, rest) = starts_with_sound s p (ground arith) in (t, ground (arith, rest))

pub starts_with-append : (p t : Text) → starts_with (p ++ t) p ≡ true
unfolding starts_with
starts_with-append [] t = ground arith
starts_with-append (c ∷ p) t = ground (arith, starts_with-append p t)

abbrev pub Lacks : ℕ → Text → Type 0
Lacks sep s = All (λ c. (c == sep) ≡ false) s

pub all-Lacks : (sep : ℕ) (s : Text) → all (λ c. not (c == sep)) s ≡ true → Lacks sep s
all-Lacks sep [] h = tt
all-Lacks sep (c ∷ s) h = ground (arith, all-Lacks sep s)

split_from_of_Lacks :
    (sep : ℕ) (cur s : Text) → Lacks sep s → split_from sep cur s ≡ reverse_aux cur s ∷ []
unfolding split_from
split_from_of_Lacks sep cur [] h = refl
split_from_of_Lacks sep cur (c ∷ s) (h, hs) = rw h (split_from_of_Lacks sep (c ∷ cur) s hs)

pub split_of_Lacks : (sep : ℕ) (s : Text) → Lacks sep s → split sep s ≡ s ∷ []
unfolding split
split_of_Lacks sep s h = split_from_of_Lacks sep [] s h

split_from-append :
    (sep : ℕ) (cur s t : Text)
    → Lacks sep s
    → split_from sep cur (s ++ sep ∷ t) ≡ reverse_aux cur s ∷ split_from sep [] t
unfolding split_from
split_from-append sep cur [] t h = rw (==_self sep)
split_from-append sep cur (c ∷ s) t (h, hs) = rw h (split_from-append sep (c ∷ cur) s t hs)

pub split-append :
    (sep : ℕ) (s t : Text) → Lacks sep s → Lacks sep t → split sep (s ++ sep ∷ t) ≡ s ∷ t ∷ []
unfolding split
split-append sep s t h k =
    split_from-append sep [] s t h ∙ ap (λ (r : List Text). s ∷ r) (split_from_of_Lacks sep [] t k)

-- `String(n)` of a natural number, with fuel; a number has at most as many digits as its value plus
-- one, and the fuel that is left is not spent.
digits_from : ℕ → ℕ → Text → Text
digits_from zero n acc = acc
digits_from (suc f) n acc =
    let rest = digits_from f (n / 10) ((48 + n % 10) ∷ acc) in
    if n / 10 == 0 then (48 + n % 10) ∷ acc else rest

unfoldable pub decimal : ℕ → Text
unfolding digits_from
decimal n = digits_from (suc n) n []
