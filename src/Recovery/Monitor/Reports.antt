-- ===== src/Recovery/Monitor/Reports.antt =====
-- What the report of the monitor says of the outstanding recoveries.
use xdcid.Common.{ℕ, ◌≡◌, true, not, any}
use xdcid.Recovery.Store.{RecoveryDb, uses}
use xdcid.Recovery.Monitor.{status_of, MonitorRecord}

-- A record of a recovery that no burn has used, with the status of its row.
abbrev pub IsOutstanding : ℕ → RecoveryDb → MonitorRecord → Type 0
IsOutstanding now db m =
    (not (any (uses m.row.fee_transaction_hash) db.burns) ≡ true) × (m.status ≡ status_of now m.row)
