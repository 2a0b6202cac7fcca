-- ===== src/Cctp/Logs/Matches.antt =====
-- The searches of a transaction's logs accept exactly one match.
use xdcid.Common.{
  ℕ, ◌+◌, ◌≤◌, ◌≡◌, refl, ◌↔◌, inl, inr, true, false, Option, none, some, List, [], ◌∷◌, Text, All,
  All-mono, ExactlyOne, this, later, arith, Option-cases, Bool-cases, Platform,
}
use xdcid.Cctp.Logs.{
  TransactionLog, FeeExpectation, BurnEvent, BurnExpectation, log_payer, collect, only,
  find_exact_usdc_transfer_payer, burn_matches, count_matches, has_exact_cctp_forwarding_burn,
}
use xdcid.Cctp.Logs.Events.{IsTransferFrom, log_payer_iff, IsForwardingBurn, burn_matches_iff}

ExactlyOne-map {κ μ} :
    {P Q : TransactionLog → Type κ} {P' Q' : TransactionLog → Type μ}
    (f : (log : TransactionLog) → P log → P' log) (g : (log : TransactionLog) → Q log → Q' log)
    {logs : List TransactionLog}
    → ExactlyOne P Q logs
    → ExactlyOne P' Q' logs
ExactlyOne-map f g (this {x = x} {xs = xs} h hs) = this (f x h) (All-mono g xs hs)
ExactlyOne-map f g (later {x = x} h hs) = later (g x h) (ExactlyOne-map f g hs)

module _ (p : Platform) (input : FeeExpectation) where
  abbrev NoPayer : TransactionLog → Type 0
  NoPayer log = log_payer p input log ≡ none

  collect-NoPayer :
      (ms : List Text) (logs : List TransactionLog)
      → All NoPayer logs
      → collect p input ms logs ≡ ms
  unfolding collect
  collect-NoPayer ms [] h = refl
  collect-NoPayer ms (log ∷ logs) (h, hs) = rw h (collect-NoPayer ms logs hs)

  collect_two :
      (a b : Text) (ms : List Text) (logs : List TransactionLog)
      → only (collect p input (a ∷ b ∷ ms) logs) ≡ none
  unfolding collect only
  collect_two a b ms [] = refl
  collect_two a b ms (log ∷ logs) = elim (Option-cases (log_payer p input log)) [
    | inl e ↦ rw (e, collect) (collect_two a b ms logs)
    | inr (c, e) ↦ rw (e, collect) (collect_two c a (b ∷ ms) logs)
  ]

  collect_one :
      (a c : Text) (logs : List TransactionLog)
      → only (collect p input (a ∷ []) logs) ≡ some c
      → (a ≡ c) × All NoPayer logs
  unfolding collect only
  collect_one a c [] e = let same : a ≡ c = cc in (same, tt)
  collect_one a c (log ∷ logs) e = elim (Option-cases (log_payer p input log)) [
    | inl none_here ↦
        let (same, rest) = collect_one a c logs (rw (none_here, collect) at e) in
        (same, (none_here, rest))
    | inr (b, found) ↦
        let e' : only (collect p input (b ∷ a ∷ []) logs) ≡ some c = rw (found, collect) at e in
        absurd (cc (collect_two b a [] logs, e'))
  ]

  collect_none :
      (c : Text) (logs : List TransactionLog)
      → only (collect p input [] logs) ≡ some c
      → ExactlyOne (λ log. log_payer p input log ≡ some c) NoPayer logs
  unfolding collect only
  collect_none c [] e = absurd (cc e)
  collect_none c (log ∷ logs) e = elim (Option-cases (log_payer p input log)) [
    | inl none_here ↦ later none_here (collect_none c logs (rw (none_here, collect) at e))
    | inr (b, found) ↦
        let (same, rest) = collect_one b c logs (rw (found, collect) at e) in
        this (rw found (cc same)) rest
  ]

  collect-ExactlyOne :
      {c : Text} {logs : List TransactionLog}
      → ExactlyOne (λ log. log_payer p input log ≡ some c) NoPayer logs
      → only (collect p input [] logs) ≡ some c
  unfolding collect only
  collect-ExactlyOne {c} (this {xs = logs} h hs) =
      rw (h, collect) (rw (collect-NoPayer (c ∷ []) logs hs))
  collect-ExactlyOne (later h hs) = rw (h, collect) (collect-ExactlyOne hs)

-- A payer is found exactly when one log is the transfer of the fee from that payer — of the USDC
-- contract, to the recipient of the fee, of its exact amount, and not from the zero address — and no
-- other log is such a transfer from anyone.
pub find_exact_iff :
    (p : Platform) (input : FeeExpectation) (logs : List TransactionLog) (payer : Text)
    → (find_exact_usdc_transfer_payer p logs input ≡ some payer)
      ↔ ExactlyOne
          (IsTransferFrom p input payer)
          (λ log. (other : Text) → ¬ IsTransferFrom p input other log)
          logs
unfolding find_exact_usdc_transfer_payer
find_exact_iff p input logs payer = (
  λ e.
      ExactlyOne-map (λ log h. (log_payer_iff p input payer log).0 h)
        (λ log h other t. cc (h, (log_payer_iff p input other log).1 t))
        (collect_none p input payer logs e),
  λ x. collect-ExactlyOne p input (
      ExactlyOne-map (λ log t. (log_payer_iff p input payer log).1 t)
        (λ log n. elim (Option-cases (log_payer p input log)) [
          | inl missing ↦ missing
          | inr (other, found) ↦ absurd (n other ((log_payer_iff p input other log).0 found))
        ])
        x),
)

module _ (p : Platform) (decode : TransactionLog → Option BurnEvent) (input : BurnExpectation) where
  abbrev Matches : TransactionLog → Type 0
  Matches log = burn_matches p decode input log ≡ true

  abbrev Differs : TransactionLog → Type 0
  Differs log = burn_matches p decode input log ≡ false

  count-le : (n : ℕ) (logs : List TransactionLog) → n ≤ count_matches p decode input n logs
  unfolding count_matches
  count-le n [] = omega arith
  count-le n (log ∷ logs) = ground (arith, count-le n logs, count-le (n + 1) logs)

  count_Differs :
      (n : ℕ) (logs : List TransactionLog)
      → All Differs logs
      → count_matches p decode input n logs ≡ n
  unfolding count_matches
  count_Differs n [] h = refl
  count_Differs n (log ∷ logs) (h, hs) = rw h (count_Differs n logs hs)

  count_full :
      (n : ℕ) (logs : List TransactionLog)
      → count_matches p decode input n logs ≡ n
      → All Differs logs
  unfolding count_matches
  count_full n [] e = tt
  count_full n (log ∷ logs) e = elim (Bool-cases (burn_matches p decode input log)) [
    | inl h ↦ absurd (ground (arith, count-le (n + 1) logs))
    | inr h ↦ (h, count_full n logs (rw h at e))
  ]

  count_one :
      (logs : List TransactionLog)
      → count_matches p decode input 0 logs ≡ 1
      → ExactlyOne Matches Differs logs
  unfolding count_matches
  count_one [] e = absurd (omega arith)
  count_one (log ∷ logs) e = elim (Bool-cases (burn_matches p decode input log)) [
    | inl h ↦ this h (count_full 1 logs (rw h at e))
    | inr h ↦ later h (count_one logs (rw h at e))
  ]

  ExactlyOne-count :
      {logs : List TransactionLog}
      → ExactlyOne Matches Differs logs
      → count_matches p decode input 0 logs ≡ 1
  unfolding count_matches
  ExactlyOne-count (this {xs = logs} h hs) = rw h (count_Differs 1 logs hs)
  ExactlyOne-count (later h hs) = rw h (ExactlyOne-count hs)

-- A forwarding burn is accepted exactly when one log of the transaction is the expected event — of the
-- token messenger, decoded to the token, depositor, amount, domain, recipient, caller, finality and
-- hook data that are expected — and no other log is one.
pub has_exact_iff :
    (p : Platform) (decode : TransactionLog → Option BurnEvent) (input : BurnExpectation)
    (logs : List TransactionLog)
    → (has_exact_cctp_forwarding_burn p decode logs input ≡ true)
      ↔ ExactlyOne
          (IsForwardingBurn p decode input)
          (λ log. ¬ IsForwardingBurn p decode input log)
          logs
unfolding has_exact_cctp_forwarding_burn
has_exact_iff p decode input logs = (
  λ e.
      ExactlyOne-map (λ log h. (burn_matches_iff p decode input log).0 h)
        (λ log h b. cc (h, (burn_matches_iff p decode input log).1 b))
        (count_one p decode input logs (ground arith)),
  λ x.
      let counted = ExactlyOne-count p decode input (
        ExactlyOne-map (λ log b. (burn_matches_iff p decode input log).1 b)
          (λ log n. elim (Bool-cases (burn_matches p decode input log)) [
            | inl h ↦ absurd (n ((burn_matches_iff p decode input log).0 h))
            | inr h ↦ h
          ])
          x) in
      ground (arith, counted),
)
