-- ===== src/Cctp/Logs/Events.antt =====
-- What the log of a fee's transfer and that of a forwarding burn look like, field by field.
use xdcid.Common.{
  ℕ, ◌+◌, ◌≡◌, ◌≢◌, ◌<◌, refl, ◌↔◌, inl, inr, true, Option, none, some, List, [], ◌∷◌, Text,
  text_eq_sound, text_eq_self, text_eq_iff, arith, Option-cases, Platform,
}
use xdcid.Cctp.Logs.{
  TransactionLog, FeeExpectation, BurnEvent, BurnExpectation, erc20_transfer_topic, zero_address,
  uint256, topic_address, transfer_between, topics_payer, log_payer, is_listed, burn_agrees,
  burn_matches,
}

module _ (p : Platform) (input : FeeExpectation) where
  -- A log of the USDC contract whose topics are the signature of `Transfer`, a payer that is not the
  -- zero address and the recipient of the fee, and whose data is the fee.
  pub record IsTransferFrom (payer : Text) (log : TransactionLog) : Type 0 where
    pub contract : p.lower log.address ≡ p.lower input.usdc_address
    pub topics :
        (signature from to recipient : Text) × (log.topics ≡ signature ∷ from ∷ to ∷ [])
        × (p.lower signature ≡ erc20_transfer_topic)
        × (topic_address p from ≡ some payer)
        × (topic_address p to ≡ some recipient)
        × (p.lower recipient ≡ p.lower input.fee_recipient)
    pub not_zero : payer ≢ zero_address
    pub amount : uint256 log.logged ≡ some input.fee_amount

  between :
      (a b : Option Text) (n : Option ℕ) (payer : Text)
      → transfer_between p input a b n ≡ some payer
      → (a ≡ some payer)
        × (n ≡ some input.fee_amount)
        × (payer ≢ zero_address)
        × (recipient : Text) × (b ≡ some recipient)
        × (p.lower recipient ≡ p.lower input.fee_recipient)
  unfolding transfer_between
  between none b n payer e = absurd (cc e)
  between (some a) none n payer e = absurd (cc e)
  between (some a) (some b) none payer e = absurd (cc e)
  between (some a) (some b) (some n) payer e = (
    ground arith,
    ground arith,
    λ z. ground (arith, z, text_eq_self zero_address),
    b,
    refl,
    text_eq_sound _ _ (ground arith),
  )

  topics-IsTransferFrom :
      (log : TransactionLog) (topics : List Text) (payer : Text)
      → log.topics ≡ topics
      → topics_payer p input log topics ≡ some payer
      → IsTransferFrom payer log
  unfolding topics_payer
  topics-IsTransferFrom log [] payer t e = absurd (cc e)
  topics-IsTransferFrom log (a ∷ []) payer t e = absurd (cc e)
  topics-IsTransferFrom log (a ∷ b ∷ []) payer t e = absurd (cc e)
  topics-IsTransferFrom log (a ∷ b ∷ c ∷ d ∷ rest) payer t e = absurd (cc e)
  topics-IsTransferFrom log (signature ∷ from ∷ to ∷ []) payer t e =
      let (known, amount, not_zero, recipient, found, same) =
        between (topic_address p from) (topic_address p to) (uint256 log.logged) payer
          (ground arith) in
      record {
        contract = text_eq_sound _ _ (ground arith);
        topics = (
          signature,
          from,
          to,
          recipient,
          t,
          text_eq_sound _ _ (ground arith),
          known,
          found,
          same,
        );
        not_zero = not_zero;
        amount = amount;
      }

  -- A log has a payer exactly when it is the transfer of the fee from that payer.
  pub log_payer_iff :
      (payer : Text) (log : TransactionLog)
      → (log_payer p input log ≡ some payer) ↔ IsTransferFrom payer log
  unfolding log_payer topics_payer transfer_between
  log_payer_iff payer log = (
    λ e. topics-IsTransferFrom log log.topics payer refl e,
    λ t.
        let (signature, from, to, recipient, topics, signed, paid, found, same) = t.topics in
        ground (
          arith,
          topics,
          paid,
          found,
          t.amount,
          t.not_zero,
          text_eq_sound payer zero_address,
          (text_eq_iff (p.lower log.address) (p.lower input.usdc_address)).1 t.contract,
          (text_eq_iff (p.lower signature) erc20_transfer_topic).1 signed,
          (text_eq_iff (p.lower recipient) (p.lower input.fee_recipient)).1 same,
        ),
  )

module _ (p : Platform) (decode : TransactionLog → Option BurnEvent) (input : BurnExpectation) where
  -- A log of the token messenger that decodes to the expected burn: the amount is that of the
  -- recipient and the greatest fee, which is less than the amount.
  pub record IsForwardingBurn (log : TransactionLog) : Type 0 where
    pub messenger : p.lower log.address ≡ p.lower input.token_messenger
    pub listed : log.topics ≢ []
    pub args : BurnEvent
    pub decoded : decode log ≡ some args
    pub burn_token : p.get_address args.call.burn_token ≡ p.get_address input.burn_token
    pub depositor : p.get_address args.depositor ≡ p.get_address input.depositor
    pub amount :
        (args.call.amount ≡ input.recipient_amount + args.call.max_fee)
        × (args.call.max_fee < args.call.amount)
    pub domain : args.call.destination_domain ≡ input.destination_domain
    pub mint_recipient : p.lower args.call.mint_recipient ≡ p.lower input.mint_recipient
    pub caller : p.lower args.call.destination_caller ≡ p.lower input.destination_caller
    pub finality : args.call.min_finality_threshold ≡ input.minimum_finality_threshold
    pub hook : p.lower args.hook_data ≡ p.lower input.hook_data

  listed_iff : (topics : List Text) → (is_listed p decode topics ≡ true) ↔ (topics ≢ [])
  unfolding is_listed
  listed_iff [] = (λ e. absurd (cc e), λ n. absurd (n refl))
  listed_iff (a ∷ rest) = (λ e z. absurd (cc z), λ n. refl)

  -- A log matches exactly when it is the expected burn.
  pub burn_matches_iff :
      (log : TransactionLog) → (burn_matches p decode input log ≡ true) ↔ IsForwardingBurn log
  unfolding burn_matches burn_agrees
  burn_matches_iff log = (
    λ e. elim (Option-cases (decode log)) [
      | inl missing ↦ ground (arith, missing)
      | inr (args, decoded) ↦ record {
        messenger = text_eq_sound _ _ (ground arith);
        listed = (listed_iff log.topics).0 (ground arith);
        args = args;
        decoded = decoded;
        burn_token = text_eq_sound _ _ (ground (arith, decoded));
        depositor = text_eq_sound _ _ (ground (arith, decoded));
        amount = ground (arith, decoded);
        domain = ground (arith, decoded);
        mint_recipient = text_eq_sound _ _ (ground (arith, decoded));
        caller = text_eq_sound _ _ (ground (arith, decoded));
        finality = ground (arith, decoded);
        hook = text_eq_sound _ _ (ground (arith, decoded));
      }
    ],
    λ b. ground (
      arith,
      b.decoded,
      b.amount,
      b.domain,
      b.finality,
      (listed_iff log.topics).1 b.listed,
      (text_eq_iff _ _).1 b.messenger,
      (text_eq_iff _ _).1 b.burn_token,
      (text_eq_iff _ _).1 b.depositor,
      (text_eq_iff _ _).1 b.mint_recipient,
      (text_eq_iff _ _).1 b.caller,
      (text_eq_iff _ _).1 b.hook,
    ),
  )
