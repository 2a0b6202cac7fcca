-- ===== src/Sdk.antt =====
-- sdk/src/index.ts: the names and the checks of arguments of the package for other programs. A thrown
-- XdcidSdkError is its message; `lower` is `toLowerCase`.
pub mod Agreement
mod Tests
use xdcid.Common.{
  ℕ, Bool, true, false, ◌&&◌, ◌||◌, not, Option, none, some, [], ◌∷◌, ◌++◌, String, Text, text,
  text_eq, trim, ends_with, starts_with, slice_off, length, all, Number, int, neg, is_safe_integer,
  is_integer, leb, ltb, ◌==◌, if◌then◌else◌, Result, err, ok, ◌>>=◌, ◌>>◌, throw_if, value,
  Platform,
}
use xdcid.Names.{matches_label, has_edge_hyphen}
use xdcid.Recovery.{is_digits, digits_value}

abbrev pub xdcid_suffix : Text
xdcid_suffix = text ".xdc"

abbrev pub min_label_length : ℕ
min_label_length = 2

abbrev pub max_label_length : ℕ
max_label_length = 63

pub record ParsedXdcidName : Type 0 where
  pub input : Text
  pub label : Text
  pub name : Text
  pub valid : Bool
  pub error : Option String

abbrev pub invalid_name : Text → Text → Text → String → ParsedXdcidName
invalid_name input label name error = record {
  input = input;
  label = label;
  name = name;
  valid = false;
  error = some error;
}

check_name : Text → Text → Text → ParsedXdcidName
check_name input label name =
    if ltb (length label) min_label_length
    then invalid_name input label name "Name must be at least 2 characters"
    else if ltb max_label_length (length label)
    then invalid_name input label name "Name must be at most 63 characters"
    else if not (matches_label label)
    then invalid_name input label name "Use only letters, numbers, and hyphens"
    else if has_edge_hyphen label
    then invalid_name input label name "Name cannot start or end with a hyphen"
    else record { input = input; label = label; name = name; valid = true; error = none }

module _ (lower : Text → Text) where
  -- The label is cut out of the text in lower case.
  label_of : Text → Text
  label_of input =
      if ends_with (lower input) xdcid_suffix
      then slice_off (length xdcid_suffix) (lower input)
      else lower input

  pub parse_xdcid_name : Text → ParsedXdcidName
  unfolding check_name label_of
  parse_xdcid_name value =
      let input = trim value in
      let label = label_of input in check_name input label (label ++ xdcid_suffix)

  message_of : Option String → String
  message_of none = "Invalid XDCID name"
  message_of (some error) = error

  pub normalize_name : Text → Result Text
  unfolding message_of
  normalize_name value =
      let parsed = parse_xdcid_name value in
      if parsed.valid then ok parsed.name else err (message_of parsed.error)

  pub normalize_subdomain_label : Text → Result Text
  normalize_subdomain_label value =
      let label = lower (trim value) in
      if ltb (length label) 1
        || ltb 63 (length label)
        || not (matches_label label)
        || has_edge_hyphen label
      then err "Subdomain label is invalid"
      else ok label

-- `keccak256(toBytes(normalizeName(value)))`
pub node_for_name : Platform → Text → Result Text
node_for_name p value = normalize_name p.lower value >>= (λ name. ok (p.keccak256 name))

is_positive : Number → Bool
is_positive (int n) = leb 1 n
is_positive _ = false

pub assert_multichain_chain_id : Number → Result ℕ
unfolding is_positive
assert_multichain_chain_id chain_id =
    throw_if (not (is_safe_integer chain_id) || not (is_positive chain_id))
      "Chain ID must be a positive safe integer"
    >> ok (value chain_id)

pub assert_years : Number → Result (Unit {0})
unfolding is_positive
assert_years years =
    throw_if (not (is_integer years) || not (is_positive years) || ltb 100 (value years))
      "Years must be an integer between 1 and 100"

abbrev zero_address : Text
zero_address = text "0x0000000000000000000000000000000000000000"

-- `label` is the first word of the message.
pub assert_non_zero_address : Platform → Text → String → Result Text
assert_non_zero_address p address message =
    throw_if (not (p.is_address address) || text_eq address zero_address) message
    >> ok (p.get_address address)

pub parse_unsigned_bigint : Text → String → Result ℕ
parse_unsigned_bigint s message = throw_if (not (is_digits s)) message >> ok (digits_value 0 s)
