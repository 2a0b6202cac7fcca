-- ===== src/Sdk/Tests.antt =====
-- The package: the theorem at a concrete name, and runs.
use xdcid.Common.{
  ℕ, ◌≡◌, refl, true, false, none, some, text, trim, ltb, all_All, if◌then◌else◌, Result, ok, err,
  int,
}
use xdcid.Common.Samples.{sample_platform, sample_hash, lower_ascii}
use xdcid.Names.{parse_xns_name}
use xdcid.Sdk.{
  parse_xdcid_name, normalize_name, normalize_subdomain_label, node_for_name, assert_years,
}
use xdcid.Sdk.Agreement.{as_xns, normalized, parse-agrees}

parse-agrees_example :
    (as_xns (parse_xdcid_name lower_ascii (text " Alice.XDC "))
      ≡ parse_xns_name lower_ascii (text " Alice.XDC "))
    × (normalized (normalize_name lower_ascii (text " Alice.XDC ")) ≡ (
        if (parse_xns_name lower_ascii (text " Alice.XDC ")).is_valid
        then some (parse_xns_name lower_ascii (text " Alice.XDC ")).name
        else none))
unfolding xdcid.Common.trim
parse-agrees_example =
    parse-agrees lower_ascii (text " Alice.XDC ") (λ s ascii. refl)
      (all_All (λ c. ltb c 128) (trim (text " Alice.XDC ")) refl)

node_test : node_for_name sample_platform (text "Alice.XDC") ≡ ok sample_hash
unfolding node_for_name normalize_name parse_xdcid_name xdcid.Common.ends_with trim
    xdcid.Names.is_label_char xdcid.Common.starts_with
node_test = refl

edge_test : normalize_subdomain_label lower_ascii (text "-pay") ≡ err "Subdomain label is invalid"
unfolding normalize_subdomain_label trim xdcid.Names.is_label_char xdcid.Common.starts_with
edge_test = refl

years_test : assert_years (int 101) ≡ err "Years must be an integer between 1 and 100"
unfolding assert_years
years_test = refl
