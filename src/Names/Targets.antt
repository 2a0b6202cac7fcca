-- ===== src/Names/Targets.antt =====
-- Payment targets: a name, or a subdomain label before a name.
use xdcid.Common.{
  ◌≡◌, refl, sym, ap, true, none, some, List, [], ◌∷◌, ◌++◌, Text, text, trim, split,
  split_of_Lacks, split-append, All, All-append, arith, subst,
}
use mathlib.Core.List.{append_assoc}
use xdcid.Names.{
  top_level, subdomain, ParsedXnsName, ParsedResolvableXnsName, without_suffix, parse_xns_name,
  parse_subdomain, parse_labels, parse_resolvable_xns_name, xns_suffix, KeepsLowerAscii,
}
use xdcid.Names.Labels.{IsLabel, passes, passes_iff}
use xdcid.Names.Canonical.{
  valid, NameChar, dot_name, suffix_chars, IsLabel-Lacks, IsLabel-names, lower_of_names,
  trim_of_names, without_suffix-append, parse_with_suffix, parse_label, parse_xns_name_inv,
}

abbrev valid_target : Text → Text → Text → Text → ParsedResolvableXnsName
valid_target input label s parent = record {
  parsed = record {
    input = input;
    label = label;
    name = s ++ (text "." ++ parent);
    is_valid = true;
    error = none;
  };
  kind = subdomain;
  parent_name = some parent;
  subdomain_label = some s;
}

-- The shape of a valid target: a name, or one subdomain label before a name.
pub data IsTarget : ParsedResolvableXnsName → Type 0 where
  a_name :
      (input s : Text)
      → IsLabel 2 s
      → IsTarget (record {
        parsed = valid input s (s ++ xns_suffix);
        kind = top_level;
        parent_name = none;
        subdomain_label = none;
      })
  a_subdomain :
      (input label s p : Text)
      → IsLabel 1 s
      → IsLabel 2 p
      → IsTarget (valid_target input label s (p ++ xns_suffix))

module _ (lower : Text → Text) where
  parse_subdomain_parts :
      (input label s : Text) (parent : ParsedXnsName)
      → (parse_subdomain lower input label s parent).is_valid ≡ true
      → (parent.is_valid ≡ true) × (passes 1 s ≡ true)
  unfolding parse_subdomain
  parse_subdomain_parts input label s parent e = ground arith

  parse_subdomain_valid :
      (input label s : Text) (parent : ParsedXnsName)
      → parent.is_valid ≡ true
      → passes 1 s ≡ true
      → parse_subdomain lower input label s parent ≡ valid_target input label s parent.name
  unfolding parse_subdomain
  parse_subdomain_valid input label s parent e k = ground arith

  parse_labels-IsTarget :
      (input label : Text) (ls : List Text)
      → (parse_labels lower input label ls).is_valid ≡ true
      → IsTarget (parse_labels lower input label ls)
  unfolding parse_labels
  parse_labels-IsTarget input label [] e = cc
  parse_labels-IsTarget input label (_ ∷ []) e =
      let (s, v, same) = parse_xns_name_inv lower input e in rw same (a_name (trim input) s v)
  parse_labels-IsTarget input label (s ∷ q ∷ []) e =
      let parent = parse_xns_name lower q in
      let (parent_ok, ok) = parse_subdomain_parts input label s parent e in
      let (p, v, same) = parse_xns_name_inv lower q parent_ok in
      let named : parent.name ≡ p ++ xns_suffix = ap (λ (r : ParsedXnsName). r.name) same in
      rw (parse_subdomain_valid input label s parent parent_ok ok, named)
        (a_subdomain input label s p ((passes_iff 1 s).0 ok) v)
  parse_labels-IsTarget input label (_ ∷ _ ∷ _ ∷ _) e = cc

  -- A valid target is a valid name, or a subdomain label of 1 to 63 characters before a valid name.
  pub parse_resolvable-IsTarget :
      (value : Text)
      → (parse_resolvable_xns_name lower value).is_valid ≡ true
      → IsTarget (parse_resolvable_xns_name lower value)
  unfolding parse_resolvable_xns_name
  parse_resolvable-IsTarget value e =
      let label = lower (without_suffix lower (trim value)) in
      parse_labels-IsTarget (trim value) label (split b'.' label) e

-- Two parses of the same target.
pub record SameTarget (r q : ParsedResolvableXnsName) : Type 0 where
  pub valid_both : q.is_valid ≡ true
  pub same_name : q.name ≡ r.name
  pub same_kind : q.kind ≡ r.kind
  pub same_parent : q.parent_name ≡ r.parent_name
  pub same_label : q.subdomain_label ≡ r.subdomain_label

module _ (lower : Text → Text) (keeps : KeepsLowerAscii lower) where
  resolve_name :
      (s : Text)
      → IsLabel 2 s
      → parse_resolvable_xns_name lower (s ++ xns_suffix) ≡ record {
        parsed = valid (s ++ xns_suffix) s (s ++ xns_suffix);
        kind = top_level;
        parent_name = none;
        subdomain_label = none;
      }
  unfolding parse_resolvable_xns_name
  resolve_name s v = rw (
    trim_of_names lower keeps (s ++ xns_suffix)
        (All-append NameChar s xns_suffix (IsLabel-names v) suffix_chars),
    without_suffix-append lower keeps s (IsLabel-names v),
    lower_of_names lower keeps s (IsLabel-names v),
    split_of_Lacks b'.' s (IsLabel-Lacks v),
    parse_with_suffix lower keeps s v,
  )

  resolve_subdomain :
      (s p : Text)
      → IsLabel 1 s
      → IsLabel 2 p
      → let whole = s ++ b'.' ∷ p in
        parse_resolvable_xns_name lower (whole ++ xns_suffix)
        ≡ valid_target (whole ++ xns_suffix) whole s (p ++ xns_suffix)
  unfolding parse_resolvable_xns_name parse_labels
  resolve_subdomain s p v w =
      let whole = s ++ b'.' ∷ p in
      let names : All NameChar whole =
        All-append NameChar s (b'.' ∷ p) (IsLabel-names v) (dot_name, IsLabel-names w) in
      rw
        (
          trim_of_names lower keeps (whole ++ xns_suffix)
              (All-append NameChar whole xns_suffix names suffix_chars),
          without_suffix-append lower keeps whole names,
          lower_of_names lower keeps whole names,
          split-append b'.' s p (IsLabel-Lacks v) (IsLabel-Lacks w),
          parse_label lower keeps p w,
        )
        (parse_subdomain_valid lower (whole ++ xns_suffix) whole s (valid p p (p ++ xns_suffix))
          refl ((passes_iff 1 s).1 v))

  IsTarget-SameTarget :
      {r : ParsedResolvableXnsName}
      → IsTarget r
      → SameTarget r (parse_resolvable_xns_name lower r.name)
  IsTarget-SameTarget (a_name input s v) = rw (resolve_name s v) (record {
    valid_both = refl;
    same_name = refl;
    same_kind = refl;
    same_parent = refl;
    same_label = refl;
  })
  IsTarget-SameTarget (a_subdomain input label s p v w) =
      let e : s ++ b'.' ∷ (p ++ xns_suffix) ≡ (s ++ b'.' ∷ p) ++ xns_suffix =
        sym (append_assoc s (b'.' ∷ p) xns_suffix) in
      subst
        (λ (n : Text).
          SameTarget (valid_target input label s (p ++ xns_suffix))
            (parse_resolvable_xns_name lower n))
        (sym e)
        (rw (resolve_subdomain s p v w) (record {
          valid_both = refl;
          same_name = refl;
          same_kind = refl;
          same_parent = refl;
          same_label = refl;
        }))

-- The name of a valid target is a valid target with the same name, kind, parent and subdomain label.
pub parse_resolvable_canonical :
    (lower : Text → Text) (value : Text)
    → KeepsLowerAscii lower
    → (parse_resolvable_xns_name lower value).is_valid ≡ true
    → let r = parse_resolvable_xns_name lower value in
      SameTarget r (parse_resolvable_xns_name lower r.name)
parse_resolvable_canonical lower value keeps e =
    IsTarget-SameTarget lower keeps (parse_resolvable-IsTarget lower value e)
