-- ===== src/Names.antt =====
-- frontend/lib/names.ts: XDCID names and payment targets.
-- `lower` is `toLowerCase` of a text.
pub mod Labels
pub mod Canonical
pub mod Targets
mod Tests
use xdcid.Common.{
  ℕ, ◌≡◌, Bool, true, false, ◌&&◌, ◌||◌, not, Option, none, some, List, [], ◌∷◌, ◌++◌, String, Text,
  text, trim, ends_with, starts_with, slice_off, split, length, all, All, leb, ltb, ◌==◌,
  if◌then◌else◌,
}

abbrev pub xns_suffix : Text
xns_suffix = text ".xdc"

abbrev pub min_xns_label_length : ℕ
min_xns_label_length = 2

abbrev pub max_xns_label_length : ℕ
max_xns_label_length = 63

pub record ParsedXnsName : Type 0 where
  pub input : Text
  pub label : Text
  pub name : Text
  pub is_valid : Bool
  pub error : Option String

pub data Kind : Type 0 where
  top_level subdomain : Kind

pub record ParsedResolvableXnsName : Type 0 where
  pub parsed : ParsedXnsName
  pub open parsed use *
  pub kind : Kind
  pub parent_name : Option Text
  pub subdomain_label : Option Text

abbrev pub invalid : Text → Text → Text → String → ParsedXnsName
invalid input label name error = record {
  input = input;
  label = label;
  name = name;
  is_valid = false;
  error = some error;
}

-- The character class of `/^[a-z0-9-]+$/`.
unfoldable pub is_label_char : ℕ → Bool
is_label_char c = (leb b'a' c && leb c b'z') || (leb b'0' c && leb c b'9') || c == b'-'

abbrev pub matches_label : Text → Bool
matches_label s = leb 1 (length s) && all is_label_char s

abbrev pub has_edge_hyphen : Text → Bool
has_edge_hyphen s = starts_with s (text "-") || ends_with s (text "-")

-- What `String.prototype.toLowerCase` is relied on for: a text of ASCII code units none of which
-- is an upper-case letter stays as it is.
abbrev pub KeepsLowerAscii : (Text → Text) → Type 0
KeepsLowerAscii lower =
    (s : Text) → All (λ c. (ltb c 128 && not (leb b'A' c && leb c b'Z')) ≡ true) s → lower s ≡ s

module _ (lower : Text → Text) where
  unfoldable pub without_suffix : Text → Text
  without_suffix input =
      if ends_with (lower input) xns_suffix then slice_off (length xns_suffix) input else input

  unfoldable pub check_label : Text → Text → Text → ParsedXnsName
  check_label input label name =
      if ltb (length label) min_xns_label_length
      then invalid input label name "Name must be at least 2 characters"
      else if ltb max_xns_label_length (length label)
      then invalid input label name "Name must be at most 63 characters"
      else if not (matches_label label)
      then invalid input label name "Use only letters, numbers, and hyphens"
      else if has_edge_hyphen label
      then invalid input label name "Name cannot start or end with a hyphen"
      else record { input = input; label = label; name = name; is_valid = true; error = none }

  unfoldable pub parse_xns_name : Text → ParsedXnsName
  unfolding check_label without_suffix
  parse_xns_name value =
      let input = trim value in
      let label = lower (without_suffix input) in check_label input label (label ++ xns_suffix)

  abbrev pub refused :
      Text → Text → Text → Option Text → Option Text → Option String → ParsedResolvableXnsName
  refused input label name parent_name subdomain_label error = record {
    parsed = record { input = input; label = label; name = name; is_valid = false; error = error };
    kind = subdomain;
    parent_name = parent_name;
    subdomain_label = subdomain_label;
  }

  -- The checks of a target with exactly one dot.
  pub parse_subdomain : Text → Text → Text → ParsedXnsName → ParsedResolvableXnsName
  parse_subdomain input label subdomain_label parent =
      let name = label ++ xns_suffix in
      let refuse = λ (error : Option String).
        refused input label name (some parent.name) (some subdomain_label) error in
      if not parent.is_valid
      then refuse parent.error
      else if ltb (length subdomain_label) 1 || ltb max_xns_label_length (length subdomain_label)
      then refuse (some "Subdomain labels must be between 1 and 63 characters")
      else if not (matches_label subdomain_label)
      then refuse (some "Use only letters, numbers, hyphens, and one dot before the parent name")
      else if has_edge_hyphen subdomain_label
      then refuse (some "A subdomain label cannot start or end with a hyphen")
      else record {
        parsed = record {
          input = input;
          label = label;
          name = subdomain_label ++ (text "." ++ parent.name);
          is_valid = true;
          error = none;
        };
        kind = subdomain;
        parent_name = some parent.name;
        subdomain_label = some subdomain_label;
      }

  -- The branches on the number of labels.
  pub parse_labels : Text → Text → List Text → ParsedResolvableXnsName
  parse_labels input label (_ ∷ []) = record {
    parsed = parse_xns_name input;
    kind = top_level;
    parent_name = none;
    subdomain_label = none;
  }
  parse_labels input label (sub_label ∷ parent_label ∷ []) =
      parse_subdomain input label sub_label (parse_xns_name parent_label)
  parse_labels input label _ =
      refused input label (label ++ xns_suffix) none none
        (some "Use a name.xdc or subdomain.name.xdc")

  unfoldable pub parse_resolvable_xns_name : Text → ParsedResolvableXnsName
  unfolding parse_labels parse_subdomain without_suffix
  parse_resolvable_xns_name value =
      let input = trim value in
      let label = lower (without_suffix input) in parse_labels input label (split b'.' label)
