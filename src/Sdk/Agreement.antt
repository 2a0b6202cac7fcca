-- ===== src/Sdk/Agreement.antt =====
-- The package and the web application read names alike.
use xdcid.Common.{
  ℕ, zero, suc, ◌-◌, ◌≡◌, refl, sym, ap, ◌∙◌, inl, inr, Bool, true, false, Option, none, some, [],
  ◌∷◌, ◌++◌, String, Text, trim, ends_with, take, length, All, All-take, ltb, if◌then◌else◌,
  Bool-cases, arith, Result, err, ok,
}
use xdcid.Common.Samples.{lower_char, lower_ascii}
use xdcid.Names.{
  matches_label, has_edge_hyphen, ParsedXnsName, parse_xns_name, check_label, without_suffix,
  xns_suffix,
}
use xdcid.Sdk.{
  ParsedXdcidName, check_name, label_of, parse_xdcid_name, normalize_name, message_of, xdcid_suffix,
}

abbrev pub Ascii : ℕ → Type 0
Ascii c = ltb c 128 ≡ true

length-lower_ascii : (s : Text) → length (lower_ascii s) ≡ length s
length-lower_ascii [] = refl
length-lower_ascii (c ∷ s) = omega (arith, length-lower_ascii s)

lower_ascii-take : (n : ℕ) (s : Text) → lower_ascii (take n s) ≡ take n (lower_ascii s)
lower_ascii-take zero s = refl
lower_ascii-take (suc n) [] = refl
lower_ascii-take (suc n) (c ∷ s) = ap (λ t. lower_char c ∷ t) (lower_ascii-take n s)

-- The result of the package as the application's.
abbrev pub as_xns : ParsedXdcidName → ParsedXnsName
as_xns x = record {
  input = x.input;
  label = x.label;
  name = x.name;
  is_valid = x.valid;
  error = x.error;
}

-- The name that the package returns.
abbrev pub normalized : Result Text → Option Text
normalized (err e) = none
normalized (ok name) = some name

check_agrees :
    (lower : Text → Text) (input label name : Text)
    → as_xns (check_name input label name) ≡ check_label lower input label name
unfolding check_name check_label
check_agrees lower input label name = elim (Bool-cases (ltb (length label) 2)) [
  | inl short ↦ rw short refl
  | inr long ↦ elim (Bool-cases (ltb 63 (length label))) [
    | inl over ↦ rw (long, over) refl
    | inr within ↦ elim (Bool-cases (matches_label label)) [
      | inr other ↦ rw (long, within, other) refl
      | inl letters ↦ elim (Bool-cases (has_edge_hyphen label)) [
        | inl edge ↦ rw (long, within, letters, edge) refl
        | inr inner ↦ rw (long, within, letters, inner) refl
      ]
    ]
  ]
]

label_agrees :
    (lower : Text → Text) (input : Text)
    → ((s : Text) → All Ascii s → lower s ≡ lower_ascii s)
    → All Ascii input
    → label_of lower input ≡ lower (without_suffix lower input)
unfolding label_of without_suffix
label_agrees lower input lowers ascii =
    let lowered = lowers input ascii in
    let n = length input - 4 in
    elim (Bool-cases (ends_with (lower input) xns_suffix)) [
      | inr bare ↦ rw bare refl
      | inl suffixed ↦ rw suffixed (
          ap (λ s. take (length s - 4) s) lowered
          ∙ ap (λ m. take (m - 4) (lower_ascii input)) (length-lower_ascii input)
          ∙ sym (lower_ascii-take n input)
          ∙ sym (lowers (take n input) (All-take Ascii n input ascii)))
    ]

parse_same :
    (lower : Text → Text) (value : Text)
    → label_of lower (trim value) ≡ lower (without_suffix lower (trim value))
    → as_xns (parse_xdcid_name lower value) ≡ parse_xns_name lower value
unfolding parse_xdcid_name parse_xns_name
parse_same lower value same =
    let input = trim value in
    check_agrees lower input (label_of lower input) (label_of lower input ++ xdcid_suffix)
    ∙ ap (λ l. check_label lower input l (l ++ xns_suffix)) same

normalized_if :
    (b : Bool) (name : Text) (message : String)
    → normalized (if b then ok name else err message) ≡ (if b then some name else none)
normalized_if true name message = refl
normalized_if false name message = refl

normalized_name :
    (lower : Text → Text) (value : Text)
    → normalized (normalize_name lower value) ≡ (
        if (parse_xdcid_name lower value).valid
        then some (parse_xdcid_name lower value).name
        else none)
unfolding normalize_name
normalized_name lower value =
    normalized_if (parse_xdcid_name lower value).valid (parse_xdcid_name lower value).name
      (message_of lower (parse_xdcid_name lower value).error)

-- On every text that is ASCII after it is trimmed, the package's parser gives the same parse as the
-- web application's, errors included, and the package's canonical name is the application's name when
-- that is valid and a thrown error when it is not. This needs only that `toLowerCase` changes the
-- upper-case letters of an ASCII text and nothing else.
pub parse-agrees :
    (lower : Text → Text) (value : Text)
    → ((s : Text) → All Ascii s → lower s ≡ lower_ascii s)
    → All Ascii (trim value)
    → (as_xns (parse_xdcid_name lower value) ≡ parse_xns_name lower value)
      × (normalized (normalize_name lower value) ≡ (
          if (parse_xns_name lower value).is_valid
          then some (parse_xns_name lower value).name
          else none))
parse-agrees lower value lowers ascii =
    let same = parse_same lower value (label_agrees lower (trim value) lowers ascii) in
    (
      same,
      normalized_name lower value
          ∙ ap (λ (x : ParsedXnsName). if x.is_valid then some x.name else none) same,
    )
