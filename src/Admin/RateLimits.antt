-- ===== src/Admin/RateLimits.antt =====
-- frontend/lib/adminSecurity.ts: the rate limits of the administration's requests, one row for each
-- scope and caller, counted over a window of fixed length. Times are milliseconds.
pub mod Windows
pub mod Waiting
use xdcid.Common.{
  ℕ, ◌+◌, ◌-◌, ◌*◌, max, Bool, ◌&&◌, not, Option, none, some, List, [], ◌∷◌, ◌++◌, find, update,
  any, Text, text, text_eq, Number, int, neg, value, is_safe_integer, divide_rounding_up, ltb, leb,
  if◌then◌else◌, Result, err, ok, ◌>>=◌, ◌>>◌, throw_if, true, false, Platform,
}
use xdcid.Admin.{Headers, admin_client_binding}

pub record RateRow : Type 0 where
  pub scope : Text
  pub identifier_hash : Text
  pub window_started_at : ℕ
  pub hit_count : ℕ

pub record Decision : Type 0 where
  pub allowed : Bool
  pub limit : ℕ
  pub remaining : ℕ
  pub retry_after_seconds : ℕ

abbrev pub is_row : Text → Text → RateRow → Bool
is_row scope identifier r = text_eq r.scope scope && text_eq r.identifier_hash identifier

abbrev pub first_hit : Text → Text → ℕ → RateRow
first_hit scope identifier now = record {
  scope = scope;
  identifier_hash = identifier;
  window_started_at = now;
  hit_count = 1;
}

-- The conflicting row's update: its window is over when it began a whole window ago.
unfoldable pub next_hit : ℕ → ℕ → RateRow → RateRow
next_hit window now r =
    if leb (r.window_started_at + window * 1_000) now
    then record r { window_started_at = now; hit_count = 1 }
    else record r { hit_count = r.hit_count + 1 }

-- Of the row that the statement finds, the rows after it and the row that it returns.
unfoldable pub stored_hit :
    Text → Text → ℕ → ℕ → List RateRow → Option RateRow → List RateRow × RateRow
unfolding next_hit
stored_hit scope identifier window now rows none =
    (first_hit scope identifier now ∷ rows, first_hit scope identifier now)
stored_hit scope identifier window now rows (some r) =
    (update (is_row scope identifier) (next_hit window now) rows, next_hit window now r)

-- The `INSERT … ON CONFLICT … RETURNING` statement at the database's time.
unfoldable pub record_hit : Text → Text → ℕ → ℕ → List RateRow → List RateRow × RateRow
unfolding stored_hit
record_hit scope identifier window now rows =
    stored_hit scope identifier window now rows (find (is_row scope identifier) rows)

-- What the returned row means at the server's time.
unfoldable pub decide : ℕ → ℕ → ℕ → RateRow → Decision
decide limit window now r = record {
  allowed = leb r.hit_count limit;
  limit = limit;
  remaining = limit - r.hit_count;
  retry_after_seconds =
      max 1 (divide_rounding_up (r.window_started_at + window * 1_000 - now) 1_000);
}

pub is_positive : Number → Bool
is_positive (int n) = is_safe_integer (int n) && ltb 0 n
is_positive _ = false

pub record RateLimit : Type 0 where
  pub scope : Text
  pub limit : Number
  pub window_seconds : Number
  pub subject : Option Text

module _ (p : Platform) (fingerprint : Text → Text) where
  -- A subject that is empty counts as missing.
  unfoldable pub identifier_of : Headers → RateLimit → Text
  identifier_of headers input =
      let client = admin_client_binding fingerprint headers in
      let caller = input.scope ++ text ":" ++ client in
      elim input.subject [
        | none ↦ fingerprint caller
        | some [] ↦ fingerprint caller
        | some (c ∷ s) ↦ fingerprint (caller ++ text ":" ++ p.lower (c ∷ s))
      ]

  -- The rows after the call, and its decision, at the database's time and at the server's.
  unfoldable pub check_admin_rate_limit :
      Headers → RateLimit → ℕ → ℕ → List RateRow → Result (List RateRow × Decision)
  unfolding is_positive identifier_of record_hit decide
  check_admin_rate_limit headers input db_now now rows =
      throw_if (not (is_positive input.limit)) "A positive admin rate limit is required"
      >> throw_if (not (is_positive input.window_seconds))
          "A positive admin rate-limit window is required"
      >> (let window = value input.window_seconds in
          let (rows', r) =
            record_hit input.scope (identifier_of headers input) window db_now rows in
          ok (rows', decide (value input.limit) window now r))
