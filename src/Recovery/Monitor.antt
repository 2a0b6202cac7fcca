-- ===== src/Recovery/Monitor.antt =====
-- frontend/lib/forwardingFailureMonitor.ts: what the administration sees of the fees that were paid and
-- have no burn yet. Times are in milliseconds. The key of a route is the pair of its chain ids. Rows
-- of one time come in the order of the table, and the reading of the tables does not fail.
pub mod Totals
pub mod Order
pub mod Reports
mod Tests
use xdcid.Common.{
  ℕ, ◌+◌, ◌-◌, ◌*◌, ◌/◌, Bool, true, false, ◌&&◌, ◌||◌, not, List, [], ◌∷◌, Text, map, filter, any,
  take, ltb, leb, ◌==◌, if◌then◌else◌, String,
}
use xdcid.Recovery.{ForwardingRecoveryRecord}
use xdcid.Recovery.Store.{Burn, RecoveryDb, uses}

pub data ForwardingMonitorStatus : Type 0 where
  in_progress delayed needs_attention recovery_expired : ForwardingMonitorStatus

pub record Counts : Type 0 where
  pub in_progress : ℕ
  pub delayed : ℕ
  pub needs_attention : ℕ
  pub recovery_expired : ℕ

pub record RouteCount : Type 0 where
  pub source_chain_id : ℕ
  pub destination_chain_id : ℕ
  pub outstanding_count : ℕ
  pub warning_count : ℕ

pub record Thresholds : Type 0 where
  pub delayed_minutes : ℕ
  pub needs_attention_minutes : ℕ

-- A row of the table with what the monitor says of it.
pub record MonitorRecord : Type 0 where
  pub row : ForwardingRecoveryRecord
  pub age_minutes : ℕ
  pub status : ForwardingMonitorStatus
  pub recommendation : String

pub record ForwardingFailureMonitor : Type 0 where
  pub generated_at : ℕ
  pub thresholds : Thresholds
  pub counts : Counts
  pub routes : List RouteCount
  pub records : List MonitorRecord

abbrev delayed_minutes : ℕ
delayed_minutes = 15

abbrev needs_attention_minutes : ℕ
needs_attention_minutes = 60

abbrev max_records : ℕ
max_records = 50

classify_status : ℕ → ℕ → ℕ → ForwardingMonitorStatus
classify_status age_minutes expires_at now =
    if leb expires_at now
    then ForwardingMonitorStatus.recovery_expired
    else if leb needs_attention_minutes age_minutes
    then ForwardingMonitorStatus.needs_attention
    else if leb delayed_minutes age_minutes
    then ForwardingMonitorStatus.delayed
    else ForwardingMonitorStatus.in_progress

recommendation : ForwardingMonitorStatus → String
recommendation ForwardingMonitorStatus.recovery_expired =
    "Inspect the source-chain transactions before asking the payer to try again."
recommendation ForwardingMonitorStatus.needs_attention =
    "Open recovery search and ask the payer to resume from the source wallet. Investigate the route if failures repeat."
recommendation ForwardingMonitorStatus.delayed =
    "Ask the payer to keep or resume the original flow using this fee transaction hash. Do not collect another fee."
recommendation ForwardingMonitorStatus.in_progress =
    "Allow the payer flow time to complete before intervening."

-- `Math.max(0, …)` of the difference is the subtraction that stops at 0.
age_minutes : ℕ → ForwardingRecoveryRecord → ℕ
age_minutes now row = (now - row.created_at) / 60_000

pub status_of : ℕ → ForwardingRecoveryRecord → ForwardingMonitorStatus
unfolding classify_status age_minutes
status_of now row = classify_status (age_minutes now row) row.expires_at now

pub classified : ℕ → ForwardingRecoveryRecord → MonitorRecord
classified now row = record {
  row = row;
  age_minutes = age_minutes now row;
  status = status_of now row;
  recommendation = recommendation (status_of now row);
}

count : ForwardingMonitorStatus → Counts → Counts
count ForwardingMonitorStatus.in_progress c = record c { in_progress = c.in_progress + 1 }
count ForwardingMonitorStatus.delayed c = record c { delayed = c.delayed + 1 }
count ForwardingMonitorStatus.needs_attention c = record c {
  needs_attention = c.needs_attention + 1;
}
count ForwardingMonitorStatus.recovery_expired c = record c {
  recovery_expired = c.recovery_expired + 1;
}

warnings : ForwardingMonitorStatus → ℕ
warnings ForwardingMonitorStatus.in_progress = 0
warnings _ = 1

-- A new key goes to the end of a `Map`, and a known one keeps its place.
add_to_route : ℕ → ForwardingRecoveryRecord → List RouteCount → List RouteCount
unfolding warnings
add_to_route now row [] =
    (record {
      source_chain_id = row.source_chain_id;
      destination_chain_id = row.destination_chain_id;
      outstanding_count = 1;
      warning_count = warnings (status_of now row);
    })
    ∷ []
add_to_route now row (r ∷ rs) =
    let rest = add_to_route now row rs in
    if r.source_chain_id == row.source_chain_id
      && r.destination_chain_id == row.destination_chain_id
    then (record r {
      outstanding_count = r.outstanding_count + 1;
      warning_count = r.warning_count + warnings (status_of now row);
    })
      ∷ rs
    else r ∷ rest

pub count_all : ℕ → List ForwardingRecoveryRecord → Counts → Counts
unfolding count
count_all now [] c = c
count_all now (row ∷ rows) c = count_all now rows (count (status_of now row) c)

pub routes_of : ℕ → List ForwardingRecoveryRecord → List RouteCount → List RouteCount
unfolding add_to_route
routes_of now [] rs = rs
routes_of now (row ∷ rows) rs = routes_of now rows (add_to_route now row rs)

-- The stable sort of an array, by what comes strictly before what.
module _ {A : Type 0} (before : A → A → Bool) where
  insert : A → List A → List A
  insert x [] = x ∷ []
  insert x (y ∷ ys) = let rest = insert x ys in if before y x then y ∷ rest else x ∷ y ∷ ys

  pub sort : List A → List A
  unfolding insert
  sort [] = []
  sort (x ∷ xs) = insert x (sort xs)

pub priority : ForwardingMonitorStatus → ℕ
priority ForwardingMonitorStatus.recovery_expired = 0
priority ForwardingMonitorStatus.needs_attention = 1
priority ForwardingMonitorStatus.delayed = 2
priority ForwardingMonitorStatus.in_progress = 3

pub more_urgent : MonitorRecord → MonitorRecord → Bool
more_urgent a b =
    ltb (priority a.status) (priority b.status)
    || priority a.status == priority b.status && ltb b.age_minutes a.age_minutes

pub busier : RouteCount → RouteCount → Bool
busier a b =
    ltb b.warning_count a.warning_count
    || a.warning_count == b.warning_count && ltb b.outstanding_count a.outstanding_count

pub earlier : ForwardingRecoveryRecord → ForwardingRecoveryRecord → Bool
earlier a b = ltb a.created_at b.created_at

-- The recoveries that no burn has used.
pub outstanding : RecoveryDb → List ForwardingRecoveryRecord
outstanding db = filter (λ r. not (any (uses r.fee_transaction_hash) db.burns)) db.recoveries

pub get_forwarding_failure_monitor : ℕ → RecoveryDb → ForwardingFailureMonitor
unfolding outstanding sort earlier busier more_urgent classified count_all routes_of
get_forwarding_failure_monitor now db =
    let rows = sort earlier (outstanding db) in
    record {
      generated_at = now;
      thresholds = record {
        delayed_minutes = delayed_minutes;
        needs_attention_minutes = needs_attention_minutes;
      };
      counts =
          count_all now rows
            (record { in_progress = 0; delayed = 0; needs_attention = 0; recovery_expired = 0 });
      routes = sort busier (routes_of now rows []);
      records = take max_records (sort more_urgent (map (classified now) rows));
    }
