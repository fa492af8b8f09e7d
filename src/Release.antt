-- ===== src/Release.antt =====
-- runtime/mcp/release: the queue of releases (queue.go) with the state of their retries (retry.go).
-- Times are milliseconds and the clock is an argument; so are the identifier and the key of a
-- release, and the backoff of `ComputeNextRetry`, which is floating-point arithmetic on a hash. The
-- queue writes its entries to a file after each change; the file is those entries.
pub mod Laws
pub mod Restart
use mathlib.Core.List.{map}
use ai_workstation_core.Base.{
  String, List, [], ◌∷◌, ◌++◌, Option, none, some, ℕ, ◌+◌, Bool, true, false, ◌&&◌, ◌||◌, not,
  if◌then◌else◌, leb, str_eq,
}

pub data ReleaseStatus : Type 0 where
  pending_external queued publishing completed final_failed : ReleaseStatus

pub record RetryState : Type 0 where
  pub attempts : ℕ
  pub next_retry_at : ℕ
  pub finalized : Bool

pub record ReleaseInput : Type 0 where
  pub version : String
  pub commit_sha : String
  pub release_notes : String

pub record ReleaseEntry : Type 0 where
  pub release_id : String
  pub commit_sha : String
  pub version : String
  pub release_notes : String
  pub status : ReleaseStatus
  pub retry : RetryState
  pub idempotency_key : String
  pub created_at : ℕ
  pub updated_at : ℕ
  pub last_error : String

abbrev pub max_retry_attempts : ℕ
max_retry_attempts = 5

abbrev pub is_retry_due : ℕ → RetryState → Bool
is_retry_due now rs = not rs.finalized && leb rs.next_retry_at now

-- The test of `Dequeue`.
abbrev pub is_ready : ℕ → ReleaseEntry → Bool
is_ready now e = elim e.status [
  | pending_external ↦ true
  | queued ↦ is_retry_due now e.retry
  | publishing ↦ false
  | completed ↦ false
  | final_failed ↦ false
]

-- The test of `PendingCount`.
abbrev pub is_pending : ReleaseEntry → Bool
is_pending e = elim e.status [
  | pending_external ↦ true
  | queued ↦ true
  | publishing ↦ true
  | completed ↦ false
  | final_failed ↦ false
]

unfoldable pub pending_count : List ReleaseEntry → ℕ
pending_count [] = 0
pending_count (e ∷ entries) =
    let rest = pending_count entries in if is_pending e then rest + 1 else rest

abbrev pub start_publishing : ℕ → ReleaseEntry → ReleaseEntry
start_publishing now e = record e { status = publishing; updated_at = now }

-- The loop of `Dequeue`: the entry that it answers, and the entries after it.
unfoldable pub dequeue : ℕ → List ReleaseEntry → Option (ReleaseEntry × List ReleaseEntry)
dequeue now [] = none
dequeue now (e ∷ entries) =
    let rest = dequeue now entries in
    let later : Option (ReleaseEntry × List ReleaseEntry) = elim rest [
      | none ↦ none
      | some (f, after) ↦ some (f, e ∷ after)
    ] in
    if is_ready now e
    then some (start_publishing now e, start_publishing now e ∷ entries)
    else later

-- `recover` on the entries of the file.
abbrev pub recover_entry : ReleaseEntry → ReleaseEntry
recover_entry e = elim e.status [
  | pending_external ↦ e
  | queued ↦ record e { status = pending_external }
  | publishing ↦ e
  | completed ↦ e
  | final_failed ↦ e
]

unfoldable pub recover : List ReleaseEntry → List ReleaseEntry
recover entries = map recover_entry entries

module _ (backoff : ℕ → String → String → ℕ) where
  -- `NewRetryState`
  abbrev pub new_retry_state : ℕ → String → String → RetryState
  new_retry_state now sha version = record {
    attempts = 0;
    next_retry_at = now + backoff 1 sha version;
    finalized = false;
  }

  unfoldable pub advance_retry_state : ℕ → RetryState → String → String → RetryState
  advance_retry_state now rs sha version =
      if leb max_retry_attempts (rs.attempts + 1)
      then record rs { attempts = rs.attempts + 1; finalized = true }
      else record rs {
        attempts = rs.attempts + 1;
        next_retry_at = now + backoff (rs.attempts + 1) sha version;
      }

  -- The entry after `Complete`.
  abbrev pub complete_entry : ℕ → Bool → String → ReleaseEntry → ReleaseEntry
  complete_entry now true text e = record e { status = completed; updated_at = now }
  complete_entry now false text e =
      let rs = advance_retry_state now e.retry e.commit_sha e.version in
      record e {
        status = if rs.finalized then final_failed else queued;
        retry = rs;
        last_error = text;
        updated_at = now;
      }

  -- The loop of `Complete`.
  unfoldable pub complete : ℕ → String → Bool → String → List ReleaseEntry → List ReleaseEntry
  complete now id success text [] = []
  complete now id success text (e ∷ entries) =
      let rest = complete now id success text entries in
      if str_eq e.release_id id then complete_entry now success text e ∷ entries else e ∷ rest

  module _ (id_of key_of : ReleaseInput → String) where
    unfoldable pub enqueue : ℕ → ReleaseInput → List ReleaseEntry → List ReleaseEntry
    enqueue now input entries =
        entries
        ++ (record {
          release_id = id_of input;
          commit_sha = input.commit_sha;
          version = input.version;
          release_notes = input.release_notes;
          status = pending_external;
          retry = new_retry_state now input.commit_sha input.version;
          idempotency_key = key_of input;
          created_at = now;
          updated_at = now;
          last_error = "";
        })
          ∷ []
