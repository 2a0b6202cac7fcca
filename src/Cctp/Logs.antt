-- ===== src/Cctp/Logs.antt =====
-- frontend/lib/forwardingFeeVerification.ts and forwardingBurnVerification.ts: what the logs of a
-- transaction prove. Addresses, topics and data are texts.
pub mod Events
pub mod Matches
use xdcid.Common.{
  ℕ, zero, suc, ◌+◌, ◌-◌, ◌*◌, Bool, true, false, ◌&&◌, ◌||◌, not, Option, none, some, List, [],
  ◌∷◌, Text, text, text_eq, drop, length, all, starts_with, leb, ◌==◌, if◌then◌else◌, Platform,
}
use xdcid.Cctp.Requests.{BurnCall}

pub record TransactionLog : Type 0 where
  pub address : Text
  pub logged : Text
  pub topics : List Text

abbrev pub erc20_transfer_topic : Text
erc20_transfer_topic = text "0xddf252ad1be2c89b69c2b068fc378daa952ba7f163c4a11628f55a4df523b3ef"

abbrev zero_address : Text
zero_address = text "0x0000000000000000000000000000000000000000"

is_hex_digit : ℕ → Bool
is_hex_digit c =
    (leb b'0' c && leb c b'9') || (leb b'a' c && leb c b'f') || (leb b'A' c && leb c b'F')

-- `/^0x[0-9a-fA-F]{n}$/`
unfoldable pub is_hex_of : ℕ → Text → Bool
unfolding is_hex_digit
is_hex_of n s = starts_with s (text "0x") && length s == n + 2 && all is_hex_digit (drop 2 s)

hex_digit : ℕ → ℕ
hex_digit c = if leb c b'9' then c - b'0' else if leb b'a' c then c - b'a' + 10 else c - b'A' + 10

hex_value : ℕ → Text → ℕ
hex_value acc [] = acc
hex_value acc (c ∷ s) = hex_value (acc * 16 + hex_digit c) s

-- `uint256(data)`
unfoldable pub uint256 : Text → Option ℕ
unfolding hex_value hex_digit is_hex_of
uint256 logged = if is_hex_of 64 logged then some (hex_value 0 (drop 2 logged)) else none

pub record FeeExpectation : Type 0 where
  pub usdc_address : Text
  pub fee_recipient : Text
  pub fee_amount : ℕ

-- The fields of a decoded `DepositForBurn` event that are read.
pub record BurnEvent : Type 0 where
  pub call : BurnCall
  pub depositor : Text
  pub hook_data : Text

pub record BurnExpectation : Type 0 where
  pub token_messenger : Text
  pub burn_token : Text
  pub depositor : Text
  pub recipient_amount : ℕ
  pub destination_domain : ℕ
  pub mint_recipient : Text
  pub destination_caller : Text
  pub minimum_finality_threshold : ℕ
  pub hook_data : Text

only : List Text → Option Text
only (payer ∷ []) = some payer
only _ = none

module _ (p : Platform) where
  abbrev pub same_text : Text → Text → Bool
  same_text a b = text_eq (p.lower a) (p.lower b)

  -- `getAddress("0x" + topic.slice(-40))`, or null.
  unfoldable pub topic_address : Text → Option Text
  unfolding is_hex_of
  topic_address topic =
      if is_hex_of 64 topic
      then some (p.get_address (b'0' ∷ b'x' ∷ drop (length topic - 40) topic))
      else none

  -- The payer of a log that is the expected transfer.
  transfer_between : FeeExpectation → Option Text → Option Text → Option ℕ → Option Text
  transfer_between input (some payer) (some recipient) (some amount) =
      if not (text_eq payer zero_address)
        && same_text recipient input.fee_recipient
        && amount == input.fee_amount
      then some payer
      else none
  transfer_between input _ _ _ = none

  topics_payer : FeeExpectation → TransactionLog → List Text → Option Text
  unfolding transfer_between
  topics_payer input log (signature ∷ from ∷ to ∷ []) =
      if same_text log.address input.usdc_address
        && text_eq (p.lower signature) erc20_transfer_topic
      then transfer_between input (topic_address from) (topic_address to) (uint256 log.logged)
      else none
  topics_payer input log _ = none

  unfoldable pub log_payer : FeeExpectation → TransactionLog → Option Text
  unfolding topics_payer
  log_payer input log = topics_payer input log log.topics

  -- The loop, newest match first: only the count and a single match are read.
  collect : FeeExpectation → List Text → List TransactionLog → List Text
  collect input matches [] = matches
  collect input matches (log ∷ logs) =
      collect input (elim (log_payer input log) [ none ↦ matches | some payer ↦ payer ∷ matches ])
        logs

  unfoldable pub find_exact_usdc_transfer_payer : List TransactionLog → FeeExpectation → Option Text
  unfolding collect only
  find_exact_usdc_transfer_payer logs input = only (collect input [] logs)

  module _ (decode : TransactionLog → Option BurnEvent) where
    burn_agrees : BurnExpectation → BurnEvent → Bool
    burn_agrees input args =
        text_eq (p.get_address args.call.burn_token) (p.get_address input.burn_token)
        && text_eq (p.get_address args.depositor) (p.get_address input.depositor)
        && not (leb args.call.amount args.call.max_fee)
        && args.call.amount - args.call.max_fee == input.recipient_amount
        && args.call.destination_domain == input.destination_domain
        && same_text args.call.mint_recipient input.mint_recipient
        && same_text args.call.destination_caller input.destination_caller
        && args.call.min_finality_threshold == input.minimum_finality_threshold
        && same_text args.hook_data input.hook_data

    is_listed : List Text → Bool
    is_listed [] = false
    is_listed (_ ∷ _) = true

    unfoldable pub burn_matches : BurnExpectation → TransactionLog → Bool
    unfolding burn_agrees is_listed
    burn_matches input log =
        same_text log.address input.token_messenger
        && is_listed log.topics
        && elim (decode log) [ none ↦ false | some args ↦ burn_agrees input args ]

    count_matches : BurnExpectation → ℕ → List TransactionLog → ℕ
    count_matches input matches [] = matches
    count_matches input matches (log ∷ logs) =
        count_matches input (if burn_matches input log then matches + 1 else matches) logs

    unfoldable pub has_exact_cctp_forwarding_burn : List TransactionLog → BurnExpectation → Bool
    unfolding count_matches
    has_exact_cctp_forwarding_burn logs input = count_matches input 0 logs == 1
