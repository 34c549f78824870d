-- ===== src/Protocol.antt =====
-- shared/protocol.ts: error codes, changes, envelopes and reset manifests.
pub mod Status
use sync_resource.Shared.{
  ℕ, String, ◌≡◌, refl, Bool, Option, none, some, List, [], ◌∷◌, leb, eqb, if◌then◌else◌,
}
use sync_resource.Js.{Value}

pub data SyncErrorCode : Type 0 where
  validation bad_request unauthorized forbidden not_found conflict payload_too_large rate_limited
        aborted timeout disposed internal :
      SyncErrorCode

pub data ResetReason : Type 0 where
  retention_gap manual auth_changed schema_changed cache_policy_changed repair replay_failed :
      ResetReason

pub record ResetManifest : Type 0 where
  pub scope : String
  pub reason : ResetReason
  pub previous_cursor : Option String
  pub next_cursor : Option String

pub data SyncChange : Type 0 where
  page_loaded : List Value → Option String → SyncChange
  item_added : String → Value → SyncChange
  item_updated : String → Value → Value → SyncChange
  item_deleted : String → SyncChange
  reset : ResetManifest → SyncChange

pub record SyncEnvelope : Type 0 where
  pub manager_key : String
  pub scope : String
  pub cursor : String
  pub source_mutation_id : Option String
  pub source_client_id : Option String
  pub changes : List SyncChange
  pub reset_manifest : Option ResetManifest

abbrev pub all_codes : List SyncErrorCode
all_codes =
    validation ∷ bad_request ∷ unauthorized ∷ forbidden ∷ not_found ∷ conflict ∷ payload_too_large
    ∷ rate_limited ∷ aborted ∷ timeout ∷ disposed ∷ internal ∷ []

-- syncErrorToHttpStatus
unfoldable pub status_of : SyncErrorCode → ℕ
status_of bad_request = 400
status_of validation = 400
status_of unauthorized = 401
status_of forbidden = 403
status_of not_found = 404
status_of conflict = 409
status_of payload_too_large = 413
status_of rate_limited = 429
status_of aborted = 499
status_of timeout = 504
status_of disposed = 500
status_of internal = 500

-- `[...syncErrorCodes].reverse().find(…)`: the last code with the status
unfoldable pub find_last : ℕ → List SyncErrorCode → Option SyncErrorCode
find_last status [] = none
find_last status (c ∷ cs) = elim (find_last status cs) [
  | some d ↦ some d
  | none ↦ if eqb (status_of c) status then some c else none
]

-- syncErrorCodeFromHttpStatus
unfoldable pub code_from_status : ℕ → SyncErrorCode
unfolding find_last status_of
code_from_status status = elim (find_last status all_codes) [
  | some c ↦ c
  | none ↦ if leb 500 status then internal else bad_request
]
