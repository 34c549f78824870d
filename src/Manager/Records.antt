-- ===== src/Manager/Records.antt =====
-- MemoryMutationRecordStore and the memory persistence of server/manager.ts.
pub mod Pruning
pub mod Keeping
pub mod Sweep
pub mod Termination
pub mod Writing
use sync_resource.Shared.{
  ℕ, zero, suc, ◌+◌, ◌-◌, ◌*◌, String, Bool, true, false, ◌&&◌, ◌||◌, Option, none, some, List, [],
  ◌∷◌, ◌++◌, length, get_elem?, drop, leb, ltb, is_some, if◌then◌else◌, ◌==◌,
}
use sync_resource.Shared.JsMap.{JsMap, get, put, delete, has}
use sync_resource.Protocol.{SyncErrorCode, SyncEnvelope}
use sync_resource.Outbox.{Outbox, append, latest_cursor}
use sync_resource.Result.{SyncResult, ok}
use sync_resource.Manager.{MutationRecord}
use sync_resource.Manager.Calls.{Persistence, mutation_key}

abbrev pub max_memory_mutation_records : ℕ
max_memory_mutation_records = 10000

abbrev pub memory_mutation_record_ttl_ms : ℕ
memory_mutation_record_ttl_ms = 3600000

pub record RecordStore : Type 0 where
  pub records : JsMap MutationRecord
  pub record_keys : List String
  pub record_key_start : ℕ

-- What a round of the loop of prune does with the key that it reads; `none` is the `break`.
unfoldable pub prune_key : ℕ → RecordStore → String → Option MutationRecord → Option RecordStore
prune_key now s key none = some (record s { record_key_start = s.record_key_start + 1 })
prune_key now s key (some r) =
    if leb (now - memory_mutation_record_ttl_ms) r.created_at
      && leb (length s.records) max_memory_mutation_records
    then none
    else some
        (record s { records = delete key s.records; record_key_start = s.record_key_start + 1 })

unfoldable pub prune_at : ℕ → RecordStore → Option String → Option RecordStore
unfolding prune_key
prune_at now s none = none
prune_at now s (some key) =
    if key == ""
    then some (record s { record_key_start = s.record_key_start + 1 })
    else prune_key now s key (get key s.records)

-- one round of the loop of prune
unfoldable pub prune_step : ℕ → RecordStore → Option RecordStore
unfolding prune_at
prune_step now s = prune_at now s (get_elem? s.record_keys s.record_key_start)

-- the loop of prune, over the keys that are left
unfoldable pub prune_loop : ℕ → ℕ → RecordStore → RecordStore
prune_loop zero now s = s
prune_loop (suc left) now s = elim (prune_step now s) [
  | none ↦ s
  | some s' ↦ prune_loop left now s'
]

-- compactRecordKeys
unfoldable pub compact_record_keys : RecordStore → RecordStore
compact_record_keys s =
    if ltb 1024 s.record_key_start && ltb (length s.record_keys) (s.record_key_start * 2)
    then record s { record_keys = drop s.record_key_start s.record_keys; record_key_start = 0 }
    else s

-- prune
unfoldable pub prune : ℕ → RecordStore → RecordStore
prune now s = compact_record_keys (prune_loop (length s.record_keys - s.record_key_start) now s)

-- read
unfoldable pub read : ℕ → RecordStore → String → String → RecordStore × Option MutationRecord
read now s scope id = let s' = prune now s in (s', get (mutation_key scope id) s'.records)

-- the write of `record`, before it prunes
unfoldable pub store_record : RecordStore → MutationRecord → RecordStore
store_record s r =
    let key = mutation_key r.scope r.mutation_id in
    record s {
      record_keys = if has key s.records then s.record_keys else s.record_keys ++ key ∷ [];
      records = put key r s.records;
    }

-- record
unfoldable pub record_mutation : ℕ → RecordStore → MutationRecord → RecordStore
unfolding store_record
record_mutation now s r = prune now (store_record s r)

-- `record?.scope === scope`
unfoldable pub in_scope : String → Option MutationRecord → Bool
in_scope scope none = false
in_scope scope (some r) = r.scope == scope

-- the loop of pruneScope: the keys it keeps, and the records
unfoldable pub prune_scope_keys :
    String → List String → JsMap MutationRecord → List String → List String × JsMap MutationRecord
unfolding in_scope
prune_scope_keys scope [] records kept = (kept, records)
prune_scope_keys scope (key ∷ keys) records kept =
    let dropped = prune_scope_keys scope keys (delete key records) kept in
    let held = prune_scope_keys scope keys records (kept ++ key ∷ []) in
    let skipped = prune_scope_keys scope keys records kept in
    if key == "" then skipped else if in_scope scope (get key records) then dropped else held

-- pruneScope
unfoldable pub prune_scope : RecordStore → String → RecordStore
unfolding prune_scope_keys
prune_scope s scope =
    let (keys, records) =
      prune_scope_keys scope (drop s.record_key_start s.record_keys) s.records [] in
    record { records = records; record_keys = keys; record_key_start = 0 }

-- MemoryManagerOutbox as the persistence of a manager
pub record MemoryStore : Type 0 where
  pub outbox : Outbox
  pub mutations : RecordStore

unfoldable pub append_some : Outbox → Option SyncEnvelope → Outbox
append_some o none = o
append_some o (some e) = append o e

-- readMutation, recordMutation and latestCursor of MemoryManagerOutbox, none of which fails
abbrev pub memory_persistence : Persistence MemoryStore
memory_persistence = record {
  read_mutation = λ now s scope id.
      let (mutations, found) = read now s.mutations scope id in
      (record s { mutations = mutations }, ok found);
  record_mutation = λ now s r. (
    record s {
      outbox = append_some s.outbox r.envelope;
      mutations = record_mutation now s.mutations r;
    },
    none,
  );
  latest_cursor = λ s scope. ok (some (latest_cursor s.outbox scope));
}
