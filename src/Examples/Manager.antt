-- ===== src/Examples/Manager.antt =====
-- A manager of server/manager.ts at concrete inputs: the outbox of a scope that wrapped around and
-- was pruned, and a write that is called twice.
use sync_resource.Shared.{
  ℕ, ◌+◌, String, ◌≡◌, refl, true, false, none, some, List, [], ◌∷◌, arith, if◌then◌else◌,
}
use sync_resource.Shared.JsMap.{get, put}
use sync_resource.Js.{Value, Fields, is_set}
use sync_resource.Protocol.{SyncChange, SyncEnvelope}
use sync_resource.Optimistic.Occurs.{occurs}
use sync_resource.Outbox.{append, latest_cursor, read_after, new_outbox}
use sync_resource.Outbox.Refinement.{Op, read_history, last_cursor, run, histories, no_history}
use sync_resource.Outbox.Replay.{read_after-run, latest_cursor-run}
use sync_resource.Result.{SyncResult, ok}
use sync_resource.Manager.{
  is_write_method_kind, MethodKind, Output, MutationRecord, MutationStatus, HandlerOk,
  ResourceValue,
}
use sync_resource.Manager.Changes.{
  unwrap_resource_value, collect_changes, infer_changes, get_sync_cursor, get_changes_sync_cursor,
  get_reset_manifest, collect_metrics, collect_signals, with_page_sync_cursor,
}
use sync_resource.Manager.Envelopes.{
  build_envelope, build_signal_envelope, commit_deferred_source_write,
}
use sync_resource.Manager.Execution.{
  execute, finish, check_in_flight, publish_write, settle_identity,
}
use sync_resource.Manager.Calls.{
  Authorization, Call, Manager, Success, mutation_key, mutation_identity, authorize, effective_id,
}
use sync_resource.Manager.Idempotence.{execute-execute}
use sync_resource.Manager.Keeping.{has_commit}
use sync_resource.Manager.Publishing.{Publishes, finish-Publishes}
use sync_resource.Manager.Records.{
  store_record, prune_step, RecordStore, MemoryStore, memory_persistence,
  memory_mutation_record_ttl_ms, read, prune, prune_loop, compact_record_keys, record_mutation,
  in_scope, prune_scope,
}
use sync_resource.Manager.Records.Pruning.{IsStore}
use sync_resource.Manager.Records.Keeping.{memory_persistence-IsKeeping}
use sync_resource.Manager.Records.Termination.{prune_loop-ends}
use sync_resource.Manager.Records.Sweep.{prune_scope-IsStore}

abbrev note_envelope : String → SyncEnvelope
note_envelope cursor = record {
  manager_key = "app";
  scope = "notes";
  cursor = cursor;
  source_mutation_id = none;
  source_client_id = none;
  changes = [];
  reset_manifest = none;
}

abbrev notes_ops : List Op
notes_ops =
    Op.appending (note_envelope "c1")
    ∷ Op.appending (note_envelope "c2")
    ∷ Op.pruning "notes"
    ∷ Op.appending (note_envelope "c3")
    ∷ Op.appending (note_envelope "c4")
    ∷ []

read_after-run_example :
    read_after (run (new_outbox "o" 2) notes_ops) "notes" "c3" 10
    ≡ read_history 2 "o" (histories no_history notes_ops "notes") "c3" 10
read_after-run_example = read_after-run "o" 2 notes_ops "notes" "c3" 10 (omega arith)

latest_cursor-run_example :
    latest_cursor (run (new_outbox "o" 2) notes_ops) "notes"
    ≡ last_cursor "o" (histories no_history notes_ops "notes")
latest_cursor-run_example = latest_cursor-run "o" 2 notes_ops "notes" (omega arith)

abbrev no_records : RecordStore
no_records = record { records = []; record_keys = []; record_key_start = 0 }

no_records-IsStore : IsStore no_records
unfolding get occurs
no_records-IsStore = record {
  indexed = record { inside = omega arith; live = λ j. refl; no_empty_key = refl };
  bounded = omega arith;
}

abbrev note : Value
note = Value.object (Fields.field "id" (Value.text "a") Fields.end)

abbrev note_value : ResourceValue
note_value = ResourceValue.single (
    HandlerOk.state_ok (record {
      output = note;
      changes = none;
      sync_cursor = none;
      metrics = none;
      source_commit = none;
    }))

abbrev add_note : Call
add_note = record {
  method = MethodKind.add;
  scope = "notes";
  args = note;
  hashed_args = "h";
  mutation_id = some "m1";
  generated_id = "g1";
  client_id = some "me";
  authorization = Authorization.allowed;
}

abbrev cursor_text : ℕ → String
cursor_text index = "cursor"

abbrev answers : ℕ → Call → SyncResult ResourceValue
answers index c = ok note_value

abbrev started_manager : Manager MemoryStore
started_manager = record {
  store = record { outbox = new_outbox "o" 2; mutations = no_records };
  in_flight = [];
  cursor_index = 0;
  published = [];
  executions = 0;
}

abbrev note_added : Success
note_added = record {
  output = Output.single_output note;
  envelope = some (record {
    manager_key = "app";
    scope = "notes";
    cursor = "cursor";
    source_mutation_id = some "m1";
    source_client_id = some "me";
    changes = SyncChange.item_added "a" note ∷ [];
    reset_manifest = none;
  });
}

finish-Publishes_example :
    Publishes [] MethodKind.add
      (finish memory_persistence "app" cursor_text answers 5 started_manager add_note)
finish-Publishes_example =
    finish-Publishes memory_persistence "app" cursor_text answers 5 started_manager add_note

m1_set : is_set (some "m1") ≡ true
unfolding is_set
m1_set = refl

add_writes : is_write_method_kind MethodKind.add ≡ true
unfolding is_write_method_kind
add_writes = refl

no_record : (memory_persistence.read_mutation 5 started_manager.store "notes" "m1").1 ≡ ok none
unfolding read prune prune_loop compact_record_keys get
no_record = refl

none_in_flight : get (mutation_key "notes" "m1") started_manager.in_flight ≡ none
unfolding get
none_in_flight = refl

no_commit_there : has_commit note_value ≡ false
unfolding has_commit
no_commit_there = refl

first_succeeds :
    (execute memory_persistence "app" cursor_text answers 5 started_manager add_note).1
    ≡ some (ok note_added)
unfolding execute read prune prune_loop compact_record_keys get mutation_identity authorize
    effective_id is_write_method_kind is_set check_in_flight commit_deferred_source_write
    unwrap_resource_value build_envelope collect_changes infer_changes get_sync_cursor
    get_changes_sync_cursor get_reset_manifest collect_metrics store_record record_mutation
    build_signal_envelope put append has_commit mutation_key collect_signals prune_step
    publish_write settle_identity with_page_sync_cursor
first_succeeds = refl

execute-execute_example :
    let m' = (execute memory_persistence "app" cursor_text answers 5 started_manager add_note).0 in
    let again = execute memory_persistence "app" cursor_text answers 9 m' add_note in
    (again.1 ≡ some (ok note_added))
    × (again.0.executions ≡ 0 + 1)
    × (again.0.published ≡ m'.published)
    × (again.0.cursor_index ≡ m'.cursor_index)
execute-execute_example =
    execute-execute memory_persistence "app" cursor_text add_note "m1" refl m1_set add_writes
      answers 5 started_manager note_value refl no_record none_in_flight refl no_commit_there
      (λ s. IsStore s.mutations) memory_mutation_record_ttl_ms memory_persistence-IsKeeping
      no_records-IsStore note_added first_succeeds 9 (omega arith) (omega arith)

abbrev note_record : MutationRecord
note_record = record {
  scope = "notes";
  mutation_id = "m1";
  method = MethodKind.add;
  args_hash = "h";
  output = Output.single_output note;
  envelope = none;
  metrics = [];
  status = MutationStatus.acknowledged;
  created_at = 5;
  finalized_at = none;
}

prune_scope-IsStore_example :
    IsStore (prune_scope no_records "notes")
    × ((key : String)
        → get key (prune_scope no_records "notes").records ≡ (
            if in_scope "notes" (get key no_records.records)
            then none
            else get key no_records.records))
prune_scope-IsStore_example = prune_scope-IsStore no_records "notes" no_records-IsStore

abbrev one_record : RecordStore
one_record = record {
  records = ("k", note_record) ∷ [];
  record_keys = "k" ∷ [];
  record_key_start = 0;
}

prune_loop-ends_example : prune_step 9000000 (prune_loop 1 9000000 one_record) ≡ none
prune_loop-ends_example = prune_loop-ends 1 9000000 one_record (omega arith)
