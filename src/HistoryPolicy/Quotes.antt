-- ===== src/HistoryPolicy/Quotes.antt =====
-- What a policy that was stored promises its subscribers.
use xdcid.Common.{ℕ, ◌+◌, ◌*◌, ◌≡◌, ◌≤◌, Option, none, some, [], ◌∷◌, map, All}
use xdcid.HistoryPolicy.{HistoryAccessPolicy, ArchivePlanQuote, archive_plan_quotes}

-- The quotes of the three plans: a price rounded up to the millionth of a dollar, never above the
-- regular price, never nothing, and a year of the longer plan never costs more, but for the rounding.
pub record IsQuoted (price : ℕ) (one three seven : ℕ) : Type 0 where
  pub one_year : one ≡ price
  pub three_years : (1 ≤ three) × (three ≤ price * 3)
  pub seven_years : (1 ≤ seven) × (seven ≤ price * 7)
  pub per_year : 3 * seven ≤ 7 * three + 2

-- The quotes of a policy that has a price, as its three payable amounts.
abbrev pub Quoted : HistoryAccessPolicy → Option ℕ → Type 0
Quoted policy none = All (λ q. q.payable_usd_micros ≡ none) (archive_plan_quotes policy)
Quoted policy (some price) =
    (one three seven : ℕ) × (map ArchivePlanQuote.payable_usd_micros (archive_plan_quotes policy)
      ≡ some one ∷ some three ∷ some seven ∷ [])
    × IsQuoted price one three seven
