-- ===== src/Names/Canonical.antt =====
-- The canonical name of a parsed name or payment target parses to itself.
use xdcid.Common.{
  ℕ, ◌≡◌, refl, sym, ◌∙◌, inl, inr, true, false, ◌&&◌, ◌||◌, not, none, [], ◌∷◌, ◌++◌, Text, trim,
  trim_of_All, ends_with, ends_with_sound, ends_with-append, slice_off-append, split, All,
  All-append, arith, Bool-cases, Lacks, leb, ltb, ◌==◌, is_space, NotSpace, subst,
}
use xdcid.Names.{
  ParsedXnsName, is_label_char, check_label, without_suffix, parse_xns_name, xns_suffix,
  KeepsLowerAscii,
}
use xdcid.Names.Labels.{IsLabel, passes, passes_iff, check_label-passes}

abbrev LowerAscii : ℕ → Type 0
LowerAscii c = (ltb c 128 && not (leb b'A' c && leb c b'Z')) ≡ true

-- A code unit of a name.
abbrev pub NameChar : ℕ → Type 0
NameChar c = (is_label_char c || c == b'.') ≡ true

All-map : {P Q : ℕ → Type 0} → ((c : ℕ) → P c → Q c) → (s : Text) → All P s → All Q s
All-map f [] h = tt
All-map f (c ∷ s) (h, hs) = (f c h, All-map f s hs)

name-NotSpace : (c : ℕ) → NameChar c → NotSpace c
unfolding is_label_char is_space
name-NotSpace c h = ground arith

name-lower : (c : ℕ) → NameChar c → LowerAscii c
unfolding is_label_char
name-lower c h = ground arith

label-name : (c : ℕ) → is_label_char c ≡ true → NameChar c
label-name c h = ground arith

label-lacks : (c : ℕ) → is_label_char c ≡ true → (c == b'.') ≡ false
unfolding is_label_char
label-lacks c h = ground arith

pub dot_name : NameChar b'.'
unfolding is_label_char
dot_name = refl

pub suffix_chars : All NameChar xns_suffix
unfolding is_label_char
suffix_chars = (refl, (refl, (refl, (refl, tt))))

pub IsLabel-Lacks : {n : ℕ} {s : Text} → IsLabel n s → Lacks b'.' s
IsLabel-Lacks {s} v = All-map label-lacks s v.chars

pub IsLabel-names : {n : ℕ} {s : Text} → IsLabel n s → All NameChar s
IsLabel-names {s} v = All-map label-name s v.chars

Lacks-suffix : (t : Text) → ¬ Lacks b'.' (t ++ xns_suffix)
Lacks-suffix [] h = cc
Lacks-suffix (c ∷ t) (_, h) = Lacks-suffix t h

no_suffix : (s : Text) → Lacks b'.' s → ends_with s xns_suffix ≡ false
no_suffix s h = elim (Bool-cases (ends_with s xns_suffix)) [
  | inl e ↦
      let (t, split) = ends_with_sound s xns_suffix e in
      absurd (Lacks-suffix t (subst (Lacks b'.') split h))
  | inr e ↦ e
]

abbrev pub valid : Text → Text → Text → ParsedXnsName
valid input label name = record {
  input = input;
  label = label;
  name = name;
  is_valid = true;
  error = none;
}

check_label-valid :
    (lower : Text → Text) (input label name : Text)
    → passes 2 label ≡ true
    → check_label lower input label name ≡ valid input label name
unfolding check_label
check_label-valid lower input label name e = ground arith

module _ (lower : Text → Text) (keeps : KeepsLowerAscii lower) where
  pub lower_of_names : (s : Text) → All NameChar s → lower s ≡ s
  lower_of_names s h = keeps s (All-map name-lower s h)

  pub trim_of_names : (s : Text) → All NameChar s → trim s ≡ s
  trim_of_names s h = trim_of_All s (All-map name-NotSpace s h)

  pub without_suffix-append :
      (s : Text) → All NameChar s → without_suffix lower (s ++ xns_suffix) ≡ s
  unfolding without_suffix
  without_suffix-append s h =
      rw
        (
          lower_of_names (s ++ xns_suffix) (All-append NameChar s xns_suffix h suffix_chars),
          ends_with-append s xns_suffix,
        )
        (slice_off-append s xns_suffix)

  without_suffix_label : {n : ℕ} (s : Text) → IsLabel n s → without_suffix lower s ≡ s
  unfolding without_suffix
  without_suffix_label s v = rw (lower_of_names s (IsLabel-names v), no_suffix s (IsLabel-Lacks v))

  pub parse_with_suffix :
      (s : Text)
      → IsLabel 2 s
      → parse_xns_name lower (s ++ xns_suffix) ≡ valid (s ++ xns_suffix) s (s ++ xns_suffix)
  unfolding parse_xns_name
  parse_with_suffix s v =
      rw
        (
          trim_of_names (s ++ xns_suffix)
              (All-append NameChar s xns_suffix (IsLabel-names v) suffix_chars),
          without_suffix-append s (IsLabel-names v),
          lower_of_names s (IsLabel-names v),
        )
        (check_label-valid lower _ s _ ((passes_iff 2 s).1 v))

  pub parse_label : (s : Text) → IsLabel 2 s → parse_xns_name lower s ≡ valid s s (s ++ xns_suffix)
  unfolding parse_xns_name
  parse_label s v =
      rw
        (
          trim_of_names s (IsLabel-names v),
          without_suffix_label s v,
          lower_of_names s (IsLabel-names v),
        )
        (check_label-valid lower _ s _ ((passes_iff 2 s).1 v))

-- A valid parse, seen from its label.
pub parse_xns_name_inv :
    (lower : Text → Text) (value : Text)
    → (parse_xns_name lower value).is_valid ≡ true
    → (s : Text) × IsLabel 2 s
      × (parse_xns_name lower value ≡ valid (trim value) s (s ++ xns_suffix))
unfolding parse_xns_name
parse_xns_name_inv lower value e =
    let s = lower (without_suffix lower (trim value)) in
    let ok : passes 2 s ≡ true =
      sym (check_label-passes lower (trim value) s (s ++ xns_suffix)) ∙ e in
    (s, (passes_iff 2 s).0 ok, check_label-valid lower (trim value) s (s ++ xns_suffix) ok)

-- The name of a valid name is its label with the suffix, and it parses to itself with that label.
pub parse_xns_name_canonical :
    (lower : Text → Text) (value : Text)
    → KeepsLowerAscii lower
    → (parse_xns_name lower value).is_valid ≡ true
    → let p = parse_xns_name lower value in
      (p.name ≡ p.label ++ xns_suffix) × (parse_xns_name lower p.name ≡ record p { input = p.name })
parse_xns_name_canonical lower value keeps e =
    let (s, v, same) = parse_xns_name_inv lower value e in
    rw same (refl, parse_with_suffix lower keeps s v)
