-- ===== src/Delivery.antt =====
-- The delivery of envelopes to one physical stream in server/streamMultiplexer.ts: the window of
-- cursors that were sent, the buffers of scopes that are being replayed, and the connection counts.

pub mod Connections
pub mod Failure
pub mod Held
pub mod Replay
pub mod Tails
pub mod Window
use sync_resource.Shared.{
  ℕ, zero, suc, ◌+◌, ◌-◌, ◌*◌, String, Bool, true, false, not, ◌&&◌, ◌||◌, Option, none, some, List,
  [], ◌∷◌, ◌++◌, length, get_elem?, drop, leb, ltb, eqb, is_some, or_default, if◌then◌else◌, ◌==◌,
}
use sync_resource.Shared.JsMap.{JsMap, get, put, delete, has}
use sync_resource.Protocol.{ResetReason, ResetManifest, SyncChange, SyncEnvelope}
use sync_resource.Optimistic.Pages.{contains}

abbrev pub sent_cursor_window : ℕ
sent_cursor_window = 4096

-- The fields of StreamState; `sent` and `closed` are what safeEnqueue and close have done.
pub record StreamState : Type 0 where
  pub sent_cursors : List String
  pub sent_cursor_order : List String
  pub sent_cursor_start : ℕ
  pub replaying_scopes : JsMap ℕ
  pub buffered_by_scope : JsMap (List SyncEnvelope)
  pub sent : List SyncEnvelope
  pub closed : Bool

-- `sentCursors.delete(cursor)`, on a set in insertion order
unfoldable pub forget : String → List String → List String
forget cursor [] = []
forget cursor (c ∷ cs) = if c == cursor then cs else c ∷ forget cursor cs

-- one round of the loop of rememberSentCursor
unfoldable pub drop_stale : StreamState → StreamState
unfolding forget
drop_stale s = record s {
  sent_cursor_start = s.sent_cursor_start + 1;
  sent_cursors = elim (get_elem? s.sent_cursor_order s.sent_cursor_start) [
    | none ↦ s.sent_cursors
    | some stale ↦ forget stale s.sent_cursors
  ];
}

-- the loop, which runs once for each cursor over the window
unfoldable pub drop_stale_all : ℕ → StreamState → StreamState
drop_stale_all zero s = s
drop_stale_all (suc rounds) s = drop_stale_all rounds (drop_stale s)

-- the splice that gives back the space of cursors that are gone
unfoldable pub compact : StreamState → StreamState
compact s =
    if ltb 1024 s.sent_cursor_start && ltb (length s.sent_cursor_order) (s.sent_cursor_start * 2)
    then record s {
      sent_cursor_order = drop s.sent_cursor_start s.sent_cursor_order;
      sent_cursor_start = 0;
    }
    else s

-- rememberSentCursor
unfoldable pub remember_sent_cursor : StreamState → String → StreamState × Bool
remember_sent_cursor s cursor =
    let added = record s {
      sent_cursors = s.sent_cursors ++ cursor ∷ [];
      sent_cursor_order = s.sent_cursor_order ++ cursor ∷ [];
    } in
    let over = length added.sent_cursor_order - added.sent_cursor_start - sent_cursor_window in
    if contains cursor s.sent_cursors
    then (s, false)
    else (compact (drop_stale_all over added), true)

-- clearStreamState
unfoldable pub clear_stream_state : StreamState → StreamState
clear_stream_state s = record s {
  sent_cursors = [];
  sent_cursor_order = [];
  sent_cursor_start = 0;
  replaying_scopes = [];
  buffered_by_scope = [];
}

-- buildResetEnvelope
unfoldable pub build_reset_envelope : String → String → String → String → ResetReason → SyncEnvelope
build_reset_envelope manager_key scope previous_cursor cursor reason =
    let manifest : ResetManifest = record {
      scope = scope;
      reason = reason;
      previous_cursor = some previous_cursor;
      next_cursor = some cursor;
    } in
    record {
      manager_key = manager_key;
      scope = scope;
      cursor = cursor;
      source_mutation_id = none;
      source_client_id = none;
      changes = SyncChange.reset manifest ∷ [];
      reset_manifest = some manifest;
    }

-- startReplay, its count, past the guards
unfoldable pub start_replay : StreamState → String → StreamState
start_replay s scope = record s {
  replaying_scopes = put scope (or_default (get scope s.replaying_scopes) 0 + 1) s.replaying_scopes;
}

-- `fits` tells whether encodeSyncEnvelopeSseFrames answers frames for an envelope, and safeEnqueue
-- takes each of them.
module _ (fits : SyncEnvelope → Bool) where
  -- sendFrames
  unfoldable pub send_frames : StreamState → SyncEnvelope → StreamState
  send_frames s e =
      if s.closed
      then s
      else if fits e
      then record s { sent = s.sent ++ e ∷ [] }
      else record (clear_stream_state s) { closed = true }

  -- sendEnvelope
  unfoldable pub send_envelope : StreamState → SyncEnvelope → StreamState
  send_envelope s e =
      let (s', is_new) = remember_sent_cursor s e.cursor in if is_new then send_frames s' e else s'

  unfoldable pub send_envelopes : StreamState → List SyncEnvelope → StreamState
  send_envelopes s [] = s
  send_envelopes s (e ∷ es) = send_envelopes (send_envelope s e) es

  -- publishSharedStreamEnvelope, for one of the streams of the scope
  unfoldable pub publish_to_stream : StreamState → SyncEnvelope → StreamState
  publish_to_stream s e =
      if has e.scope s.replaying_scopes
      then record s {
        buffered_by_scope =
            put e.scope (or_default (get e.scope s.buffered_by_scope) [] ++ e ∷ [])
              s.buffered_by_scope;
      }
      else if contains e.cursor s.sent_cursors
      then s
      else send_frames s e

  -- flushBufferedScope
  unfoldable pub flush_buffered_scope : StreamState → String → StreamState
  flush_buffered_scope s scope = elim (get scope s.buffered_by_scope) [
    | none ↦ s
    | some buffered ↦
        send_envelopes (record s { buffered_by_scope = delete scope s.buffered_by_scope }) buffered
  ]

  -- replaySubscription, its end for a subscription that is still held, after a replay that succeeded
  unfoldable pub end_replay : StreamState → String → StreamState
  end_replay s scope =
      let remaining = or_default (get scope s.replaying_scopes) 1 - 1 in
      if ltb 0 remaining
      then record s { replaying_scopes = put scope remaining s.replaying_scopes }
      else flush_buffered_scope (record s { replaying_scopes = delete scope s.replaying_scopes })
          scope

  -- replaySubscription, from the answer of the outbox on: `reset` is the envelope that
  -- buildResetEnvelope makes for the subscription
  unfoldable pub replay_subscription :
      StreamState → String → Bool → ℕ → List SyncEnvelope → SyncEnvelope → StreamState
  replay_subscription s scope cursor_found replay_limit envelopes reset_envelope =
      end_replay
        (if not cursor_found || ltb replay_limit (length envelopes)
          then send_envelope s reset_envelope
          else send_envelopes s envelopes)
        scope

-- close: its guard, its flag and the clear of the stream's state; the timers and the maps of
-- transports that it also updates are not fields of the stream
unfoldable pub close_stream : StreamState → StreamState
close_stream s = if s.closed then s else record (clear_stream_state s) { closed = true }

-- replaySubscription, its end for a subscription that is still held, after a replay that failed
unfoldable pub end_failed_replay : StreamState → String → StreamState
end_failed_replay s scope =
    let remaining = or_default (get scope s.replaying_scopes) 1 - 1 in
    record s {
      replaying_scopes =
          if ltb 0 remaining
          then put scope remaining s.replaying_scopes
          else delete scope s.replaying_scopes;
    }

-- handleReplayFailure, for a subscription that is still held on a stream that is not aborted, after
-- the report: `reset` is the envelope that buildResetEnvelope makes
unfoldable pub handle_replay_failure :
    (SyncEnvelope → Bool) → StreamState → String → SyncEnvelope → StreamState
handle_replay_failure fits s scope reset_envelope = close_stream (
    send_envelope fits (record s { buffered_by_scope = delete scope s.buffered_by_scope })
      reset_envelope)

-- incrementIp on the counts of one transport
unfoldable pub increment_ip : ℕ → JsMap ℕ → String → JsMap ℕ × Bool
increment_ip max_connections connections ip =
    let current = or_default (get ip connections) 0 in
    if leb max_connections current
    then (connections, false)
    else (put ip (current + 1) connections, true)

-- decrementIp on the counts of one transport
unfoldable pub decrement_ip : JsMap ℕ → String → JsMap ℕ
decrement_ip connections ip =
    let current = or_default (get ip connections) 0 in
    if leb current 1 then delete ip connections else put ip (current - 1) connections
