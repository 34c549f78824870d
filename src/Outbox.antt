-- ===== src/Outbox.antt =====
-- MemoryManagerOutbox of server/manager.ts: the envelopes of each scope in a ring, and what a client
-- that reconnects with a cursor reads from it.
pub mod Ring
pub mod Refinement
pub mod Replay
pub mod Runs
use sync_resource.Shared.{
  ℕ, zero, suc, ◌+◌, ◌-◌, ◌%◌, min, String, Bool, true, false, ◌||◌, Option, none, some, List, [],
  ◌∷◌, ◌++◌, length, get_elem?, leb, ltb, eqb, or_default, if◌then◌else◌, ◌==◌,
}
use sync_resource.Shared.JsMap.{JsMap, get, put}
use sync_resource.Protocol.{SyncEnvelope}

-- ScopeLog. A slot that was never written is `none`.
pub record ScopeLog : Type 0 where
  pub ring : List (Option SyncEnvelope)
  pub next : ℕ
  pub trimmed : Bool

-- The fields of MemoryManagerOutbox that hold envelopes.
pub record Outbox : Type 0 where
  pub origin : String
  pub scopes : JsMap ScopeLog
  pub max_envelopes_per_scope : ℕ

pub record OutboxRead : Type 0 where
  pub envelopes : List (Option SyncEnvelope)
  pub cursor_found : Bool
  pub retained_envelope_count : ℕ

-- `ring[index] = envelope`: a write past the end leaves holes before it.
unfoldable pub write_slot :
    ℕ → SyncEnvelope → List (Option SyncEnvelope) → List (Option SyncEnvelope)
write_slot zero e [] = some e ∷ []
write_slot zero e (x ∷ xs) = some e ∷ xs
write_slot (suc i) e [] = none ∷ write_slot i e []
write_slot (suc i) e (x ∷ xs) = x ∷ write_slot i e xs

-- `ring[index]`
unfoldable pub slot : List (Option SyncEnvelope) → ℕ → Option SyncEnvelope
slot ring index = or_default (get_elem? ring index) none

abbrev pub empty_log : ScopeLog
empty_log = record { ring = []; next = 0; trimmed = false }

-- append, from the look-up of the log on
unfoldable pub append_to : ℕ → ScopeLog → SyncEnvelope → ScopeLog
append_to max_envelopes log e = record log {
  ring = write_slot (log.next % max_envelopes) e log.ring;
  next = log.next + 1;
}

-- append
unfoldable pub append : Outbox → SyncEnvelope → Outbox
append o e = if eqb o.max_envelopes_per_scope 0 then o else record o {
  scopes =
      put e.scope
        (append_to o.max_envelopes_per_scope (or_default (get e.scope o.scopes) empty_log) e)
        o.scopes;
}

-- `log.ring[(log.next - 1) % maxEnvelopesPerScope]?.cursor ?? origin`
unfoldable pub newest_cursor : ℕ → String → ScopeLog → String
newest_cursor max_envelopes origin log = elim (slot log.ring ((log.next - 1) % max_envelopes)) [
  | none ↦ origin
  | some e ↦ e.cursor
]

-- latestCursor
unfoldable pub latest_cursor : Outbox → String → String
latest_cursor o scope = elim (get scope o.scopes) [
  | none ↦ o.origin
  | some log ↦ newest_cursor o.max_envelopes_per_scope o.origin log
]

-- `ring[sequence % maxEnvelopesPerScope]?.cursor === cursor`
unfoldable pub slot_has_cursor : Option SyncEnvelope → String → Bool
slot_has_cursor none cursor = false
slot_has_cursor (some e) cursor = e.cursor == cursor

-- the loop of replayStart, over the sequence numbers that are left
unfoldable pub find_sequence : ℕ → List (Option SyncEnvelope) → String → ℕ → ℕ → Option ℕ
find_sequence max_envelopes ring cursor zero sequence = none
find_sequence max_envelopes ring cursor (suc left) sequence =
    let rest = find_sequence max_envelopes ring cursor left (sequence + 1) in
    if slot_has_cursor (slot ring (sequence % max_envelopes)) cursor
    then some (sequence + 1)
    else rest

-- replayStart
unfoldable pub replay_start : ℕ → String → ScopeLog → String → Option ℕ
replay_start max_envelopes origin log cursor =
    let first = log.next - max_envelopes in
    if cursor == origin
    then if log.trimmed || leb max_envelopes log.next then none else some 0
    else find_sequence max_envelopes log.ring cursor (log.next - first) first

-- the loop of readAfter, over the sequence numbers that are left
unfoldable pub collect_from :
    ℕ
    → List (Option SyncEnvelope)
    → ℕ
    → ℕ
    → ℕ
    → List (Option SyncEnvelope)
    → List (Option SyncEnvelope)
collect_from max_envelopes ring limit zero sequence envelopes = envelopes
collect_from max_envelopes ring limit (suc left) sequence envelopes =
    let rest =
      collect_from max_envelopes ring limit left (sequence + 1)
        (envelopes ++ slot ring (sequence % max_envelopes) ∷ []) in
    if ltb (length envelopes) limit then rest else envelopes

-- readAfter, from the look-up of the log on
unfoldable pub read_log : ℕ → String → ScopeLog → String → ℕ → OutboxRead
read_log max_envelopes origin log cursor limit =
    let retained = min log.next max_envelopes in
    elim (replay_start max_envelopes origin log cursor) [
      | none ↦ record { envelopes = []; cursor_found = false; retained_envelope_count = retained }
      | some start ↦ record {
        envelopes = collect_from max_envelopes log.ring limit (log.next - start) start [];
        cursor_found = true;
        retained_envelope_count = retained;
      }
    ]

-- readAfter
unfoldable pub read_after : Outbox → String → String → ℕ → OutboxRead
read_after o scope cursor limit =
    read_log o.max_envelopes_per_scope o.origin (or_default (get scope o.scopes) empty_log) cursor
      limit

-- the log that pruneScope leaves, where it replaces one
unfoldable pub pruned_log : ℕ → ScopeLog → ScopeLog
pruned_log max_envelopes log =
    if ltb 1 log.next
    then record {
      ring = slot log.ring ((log.next - 1) % max_envelopes) ∷ [];
      next = 1;
      trimmed = true;
    }
    else log

-- pruneScope, for the envelopes
unfoldable pub prune_scope : Outbox → String → Outbox
prune_scope o scope = elim (get scope o.scopes) [
  | none ↦ o
  | some log ↦ record o { scopes = put scope (pruned_log o.max_envelopes_per_scope log) o.scopes }
]

-- the constructor
unfoldable pub new_outbox : String → ℕ → Outbox
new_outbox origin max_envelopes = record {
  origin = origin;
  scopes = [];
  max_envelopes_per_scope = max_envelopes;
}
