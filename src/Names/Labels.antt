-- ===== src/Names/Labels.antt =====
-- A valid name is one whose label is well formed.
use xdcid.Common.{
  ℕ, ◌≤◌, ◌≡◌, refl, ap, ◌↔◌, inl, inr, Bool, true, false, ◌&&◌, not, List, [], ◌∷◌, ◌++◌, Text,
  text, starts_with, ends_with, starts_with_sound, ends_with_sound, starts_with-append,
  ends_with-append, all, All, length, arith, Bool-cases, leb,
}
use xdcid.Names.{is_label_char, has_edge_hyphen, check_label, parse_xns_name}

-- A label of at least `least` and at most 63 lower-case letters, digits and hyphens, with no
-- hyphen at either end.
pub record IsLabel (least : ℕ) (s : Text) : Type 0 where
  pub long : least ≤ length s
  pub short : length s ≤ 63
  pub chars : All (λ c. is_label_char c ≡ true) s
  pub opens : ¬ ((t : Text) × (s ≡ b'-' ∷ t))
  pub closes : ¬ ((t : Text) × (s ≡ t ++ b'-' ∷ []))

pub all_sound {ℓ} :
    {A : Type ℓ} (p : A → Bool) (xs : List A) → all p xs ≡ true → All (λ x. p x ≡ true) xs
all_sound p [] e = tt
all_sound p (x ∷ xs) e = (ground arith, all_sound p xs (ground arith))

pub all_complete {ℓ} :
    {A : Type ℓ} (p : A → Bool) (xs : List A) → All (λ x. p x ≡ true) xs → all p xs ≡ true
all_complete p [] h = refl
all_complete p (x ∷ xs) (h, hs) = rw (h, all_complete p xs hs)

not_true : {b : Bool} → ¬ (b ≡ true) → b ≡ false
not_true {b} h = elim (Bool-cases b) [ inl e ↦ absurd (h e) | inr e ↦ e ]

pub opens_iff : (s : Text) → (starts_with s (text "-") ≡ false) ↔ (¬ ((t : Text) × (s ≡ b'-' ∷ t)))
opens_iff s = (
  λ e (t, h). cc (e, starts_with-append (text "-") t, ap (λ r. starts_with r (text "-")) h),
  λ no_t. not_true (λ e. no_t (starts_with_sound s (text "-") e)),
)

pub closes_iff :
    (s : Text) → (ends_with s (text "-") ≡ false) ↔ (¬ ((t : Text) × (s ≡ t ++ b'-' ∷ [])))
closes_iff s = (
  λ e (t, h). cc (e, ends_with-append t (text "-"), ap (λ r. ends_with r (text "-")) h),
  λ no_t. not_true (λ e. no_t (ends_with_sound s (text "-") e)),
)

-- The tests that the code makes on a label, at both of its lower bounds.
abbrev pub passes : ℕ → Text → Bool
passes least s =
    leb least (length s) && leb (length s) 63 && all is_label_char s && not (has_edge_hyphen s)

pub passes_iff : (least : ℕ) (s : Text) → (passes least s ≡ true) ↔ IsLabel least s
passes_iff least s = (
  λ e. record {
    long = ground arith;
    short = ground arith;
    chars = all_sound is_label_char s (ground arith);
    opens = (opens_iff s).0 (ground arith);
    closes = (closes_iff s).0 (ground arith);
  },
  λ v. ground (
    arith,
    v.long,
    v.short,
    all_complete is_label_char s v.chars,
    (opens_iff s).1 v.opens,
    (closes_iff s).1 v.closes,
  ),
)

pub check_label-passes :
    (lower : Text → Text) (input label name : Text)
    → (check_label lower input label name).is_valid ≡ passes 2 label
unfolding check_label
check_label-passes lower input label name = ground arith

-- Every field of a parsed name other than the error and the verdict.
pub check_label-label :
    (lower : Text → Text) (input label name : Text)
    → (check_label lower input label name).label ≡ label
unfolding check_label
check_label-label lower input label name = ground arith

-- A name is valid exactly when its label has 2 to 63 characters, all of them lower-case letters,
-- digits or hyphens, and neither begins nor ends with a hyphen.
pub parse_xns_name_iff :
    (lower : Text → Text) (value : Text)
    → let p = parse_xns_name lower value in (p.is_valid ≡ true) ↔ IsLabel 2 p.label
unfolding parse_xns_name
parse_xns_name_iff lower value =
    rw (check_label-passes lower _ _ _, check_label-label lower _ _ _) (passes_iff 2 _)
