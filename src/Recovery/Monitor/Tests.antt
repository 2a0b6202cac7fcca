-- ===== src/Recovery/Monitor/Tests.antt =====
-- The monitor at two outstanding recoveries and one that a burn has used.
use xdcid.Common.{ℕ, ◌+◌, true, not, any, List, [], ◌∷◌, Text, text}
use xdcid.Recovery.{ForwardingRecoveryRecord}
use xdcid.Recovery.Store.{RecoveryDb}
use xdcid.Recovery.Monitor.{ForwardingMonitorStatus, Counts, ForwardingFailureMonitor}

abbrev paid : Text → ℕ → ForwardingRecoveryRecord
paid hash created_at = record {
  fee_transaction_hash = hash;
  source_chain_id = 1;
  payer = text "0xp";
  recipient_amount = 2_000_000;
  convenience_fee_amount = 100_000;
  recipient = text "0xr";
  destination_chain_id = 137;
  created_at = created_at;
  expires_at = created_at + 604_800_000;
}

abbrev stored : RecoveryDb
stored = record {
  recoveries =
      paid (text "0xc") 6_000_000 ∷ paid (text "0xb") 5_000_000 ∷ paid (text "0xa") 1_000_000 ∷ [];
  burns = (record { fee_transaction_hash = text "0xb"; burn_transaction_hash = text "0xd" }) ∷ [];
  fee_events = [];
}

abbrev seen : ForwardingFailureMonitor
seen = record {
  generated_at = 6_100_000;
  thresholds = record { delayed_minutes = 15; needs_attention_minutes = 60 };
  counts = record { in_progress = 1; delayed = 0; needs_attention = 1; recovery_expired = 0 };
  routes =
      (record {
        source_chain_id = 1;
        destination_chain_id = 137;
        outstanding_count = 2;
        warning_count = 1;
      })
      ∷ [];
  records =
      (record {
        row = paid (text "0xa") 1_000_000;
        age_minutes = 85;
        status = ForwardingMonitorStatus.needs_attention;
        recommendation =
            "Open recovery search and ask the payer to resume from the source wallet. Investigate the route if failures repeat.";
      })
      ∷ (record {
        row = paid (text "0xc") 6_000_000;
        age_minutes = 1;
        status = ForwardingMonitorStatus.in_progress;
        recommendation = "Allow the payer flow time to complete before intervening.";
      })
      ∷ [];
}
