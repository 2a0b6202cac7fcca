-- ===== src/Names/Tests.antt =====
-- Names: the theorems at concrete names.
use xdcid.Common.{
  ◌≡◌, refl, ◌↔◌, ap, ◌++◌, ℕ, Bool, true, not, ◌&&◌, List, [], ◌∷◌, Text, text, All, ltb, leb,
  if◌then◌else◌, arith, Bool-cases, inl, inr,
}
use xdcid.Common.Samples.{lower_ascii}
use xdcid.Names.{xns_suffix, parse_xns_name, parse_resolvable_xns_name, KeepsLowerAscii}
use xdcid.Names.Labels.{IsLabel, parse_xns_name_iff}
use xdcid.Names.Canonical.{parse_xns_name_canonical}
use xdcid.Names.Targets.{IsTarget, parse_resolvable-IsTarget}

lower_ascii-KeepsLowerAscii : KeepsLowerAscii lower_ascii
lower_ascii-KeepsLowerAscii [] h = refl
lower_ascii-KeepsLowerAscii (c ∷ s) (h, hs) = ground (arith, lower_ascii-KeepsLowerAscii s hs)

abbrev alice : Text
alice = text " Alice-1.xdc "

abbrev pay_alice : Text
pay_alice = text "Pay.alice.xdc"

parse_xns_name_iff_example :
    ((parse_xns_name lower_ascii alice).is_valid ≡ true)
    ↔ IsLabel 2 (parse_xns_name lower_ascii alice).label
parse_xns_name_iff_example = parse_xns_name_iff lower_ascii alice

parse_xns_name_canonical_example :
    ((parse_xns_name lower_ascii alice).name
      ≡ (parse_xns_name lower_ascii alice).label ++ xns_suffix)
    × (parse_xns_name lower_ascii (parse_xns_name lower_ascii alice).name
        ≡ record (parse_xns_name lower_ascii alice) {
          input = (parse_xns_name lower_ascii alice).name;
        })
unfolding parse_xns_name xdcid.Common.ends_with xdcid.Common.trim xdcid.Names.is_label_char
    xdcid.Common.starts_with
parse_xns_name_canonical_example =
    parse_xns_name_canonical lower_ascii alice lower_ascii-KeepsLowerAscii refl

parse_resolvable-IsTarget_example : IsTarget (parse_resolvable_xns_name lower_ascii pay_alice)
unfolding parse_resolvable_xns_name xdcid.Common.split xdcid.Common.ends_with xdcid.Common.trim
    parse_xns_name xdcid.Names.is_label_char xdcid.Common.starts_with
parse_resolvable-IsTarget_example = parse_resolvable-IsTarget lower_ascii pay_alice refl
