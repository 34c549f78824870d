-- ===== src/Lib.antt =====
-- Sync Resource: a verification library for the client's cache, store and repairs, the event stream
-- and its protocol, and the server's manager and stream multiplexer.
--
-- The program keeps lists and records of a server in a client's cache. A read brings a page of items
-- or a record; an envelope brings changes, and the cache merges each of them into every family of
-- pages (a family is a query without its cursor); a write is shown at once as a pending command over
-- the cached data, and leaves the map of pending commands when the request fails or when the envelope
-- arrives that carries its mutation id. client/store.ts calls client/optimistic.ts for each of these,
-- and asks client/repair.ts for a repair when pages are stale.
-- On the server, server/manager.ts runs a write once for its mutation id, builds its envelope and
-- keeps both; server/streamMultiplexer.ts sends the envelopes of a scope to a stream and replays from
-- the manager's outbox what the stream has missed.
--
-- Which file models what (paths of the program are below src/):
--   Js: values of JSON, with the tests of shared/guards.ts.
--   Protocol: shared/protocol.ts, its changes, envelopes, error codes and HTTP statuses.
--   Optimistic/Types: PageFamilyState, OptimisticState and the functions of OptimisticReconcile.
--   Optimistic/Order: isSortedFrom, findInsertIndex and the visible sort.
--   Optimistic/Window: one family: setLoadedItem, setRealtimePages, moveByCompare, pagesOf.
--   Optimistic/Refs: retain, release, storeIfReferenced.
--   Optimistic/Changes: the reconcile functions for items that are added, updated and removed.
--   Optimistic/Families: readFamily, getActiveFamily, getOrCreateFamily with its eviction.
--   Optimistic/QueryKey: shared/stableJson.ts, queryWithoutCursor, queryFamilyKey.
--   Optimistic/Pages: applyPageItems, applyPageOutput, refreshLoadedItems.
--   Optimistic/Patch: applyPatch with $set and $unset.
--   Optimistic/Pending, Optimistic/Overlay: pending commands, applyPendingToView, overlayItems.
--   Optimistic/Envelope: applyEnvelope. Optimistic/Views: the exported reads, setBaseData,
--     selectQueryFamily. Optimistic/Snapshot: captureOptimisticState, restoreOptimisticState.
--   Stream: encodeSyncEnvelopeSseFrames of shared/sse.ts and acceptSyncEnvelopeChunk of
--     client/runtime.ts.
--   Outbox: MemoryManagerOutbox of server/manager.ts, the envelopes of each scope in a ring.
--   Manager: executeManagerResourceMethod of server/manager.ts and what it calls. Manager/Changes and
--     Manager/Envelopes: collectChanges to getResetManifest, buildEnvelope, commitSource.
--     Manager/Calls, Manager/Execution: the call itself. Manager/Records: MemoryMutationRecordStore,
--     and the outbox with it as the persistence that Manager/Execution takes as a parameter.
--   Delivery: server/streamMultiplexer.ts for one physical stream: rememberSentCursor, sendEnvelope,
--     the replay of a scope and its failure, and the connection counts of one transport.
--   Result: shared/result.ts. Repair: createRepairScheduler of client/repair.ts, one callback per
--     step; Repair/Phases says what each does in each phase of the scheduler.
--   Store: client/store.ts, the data path of write, get, requestPage, settleRead and
--     handleLiveEnvelope; needsRepair of client/repair.ts.
--   The other files hold lemmas and theorems, each named for what it proves; Examples applies the
--   theorems at concrete inputs.
--
-- How the model corresponds to the code:
--   A Map is an association list in insertion order, where a write to a key that is there keeps its
--   place. Objects that the code mutates are values that the functions return; a loop over the families
--   passes the base items and the reference counts (Tables) from one family to the next. The code
--   compares items with ===; here that is Host.same. localeCompare and JSON.stringify are fields of
--   Host too. Numbers are the natural ones, and of the number that a comparator returns only the sign
--   is kept, so NaN is left out. Sorting is a stable insertion sort; without a comparator it changes
--   nothing. `undefined` is a value, and stands for an absent property.
--   A text of Stream is its UTF-16 units, and the byte length that TextEncoder gives it is a parameter.
--   The search of findInsertIndex runs on fuel, the length of the array, which is enough since each
--   step shortens the range. All other loops are structural.
--   A stream of Delivery lists the envelopes whose frames it took. Whether an envelope can be encoded
--   within the limit and its frames fit the queue is a parameter; an envelope that does not closes the
--   stream. The transport and the address are arguments, one stream and one transport at a time.
--   A call of Manager is one step for a manager in which no other call runs between its start and its
--   end; `admit` and `finish` are its two halves, and a call that meets a mutation in flight waits.
--   The resource is a function that answers by the number of the run, the persistence a record of
--   functions over its state; times are passed in, and errors are their codes.
--   The promises of Repair are numbered as they are made, and one is open until it is settled; the
--   timer fires only where it is set, and a run settles or throws at any later step.
--
-- Not modelled: the sharing of nested objects between an item and its patched copy; fields of an
-- envelope that the modelled code never reads (signals, metrics); hydration, timers, events and the
-- cache adapter of the store; the subscriptions and reconnects of client/runtime.ts and the parser of
-- event frames; the maps of subscriptions and transports of the multiplexer; the bus and the request
-- handlers of the manager; the schemas, batches and hooks of server/resource.ts; the adapter to an
-- effect library; and the bindings to user interface libraries.
mod Shared
pub mod Js
pub mod Protocol
pub mod Optimistic
pub mod Stream
pub mod Delivery
pub mod Outbox
pub mod Result
pub mod Repair
pub mod Manager
pub mod Store
mod Examples
