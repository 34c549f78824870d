-- ===== src/Examples/Delivery.antt =====
-- The streams of server/streamMultiplexer.ts: one stream that has sent one cursor, and one address.
use sync_resource.Shared.{
  ◌≤◌, ◌≡◌, refl, String, true, false, not, Bool, none, List, length, ◌==◌, [], ◌∷◌, ◌++◌, arith,
}
use sync_resource.Shared.JsMap.{get}
use sync_resource.Optimistic.Occurs.{occurs}
use sync_resource.Optimistic.Pages.{contains}
use sync_resource.Protocol.{SyncEnvelope, retention_gap}
use sync_resource.Delivery.{
  StreamState, remember_sent_cursor, build_reset_envelope, start_replay, send_envelopes,
  replay_subscription, increment_ip, decrement_ip,
}
use sync_resource.Delivery.{send_envelope, close_stream, end_failed_replay, handle_replay_failure}
use sync_resource.Delivery.Failure.{handle_replay_failure-publish_all}
use sync_resource.Delivery.Held.{all_of}
use sync_resource.Delivery.Replay.{publish_all, replay_subscription-publish_all}
use sync_resource.Delivery.Window.{IsWindow, remember_sent_cursor-IsWindow}
use sync_resource.Delivery.Connections.{
  connections_of, decrement_ip-increment_ip, increment_ip-bounded,
}

abbrev one_sent : StreamState
one_sent = record {
  sent_cursors = "c1" ∷ [];
  sent_cursor_order = "c1" ∷ [];
  sent_cursor_start = 0;
  replaying_scopes = [];
  buffered_by_scope = [];
  sent = [];
  closed = false;
}

once : (j : String) → occurs j ("c1" ∷ []) ≤ 1
unfolding occurs
once j = ground arith

one_sent-IsWindow : IsWindow one_sent
one_sent-IsWindow = record {
  kept = refl;
  inside = omega arith;
  bounded = omega arith;
  distinct = once;
}

remember_sent_cursor-IsWindow_example :
    IsWindow (remember_sent_cursor one_sent "c2").0
    × ((remember_sent_cursor one_sent "c2").1 ≡ not (contains "c2" one_sent.sent_cursors))
    × (contains "c2" (remember_sent_cursor one_sent "c2").0.sent_cursors ≡ true)
remember_sent_cursor-IsWindow_example =
    remember_sent_cursor-IsWindow one_sent "c2" one_sent-IsWindow

abbrev fits_all : SyncEnvelope → Bool
fits_all e = true

abbrev notes_envelope : String → SyncEnvelope
notes_envelope cursor = record {
  manager_key = "app";
  scope = "notes";
  cursor = cursor;
  source_mutation_id = none;
  source_client_id = none;
  changes = [];
  reset_manifest = none;
}

abbrev published : List SyncEnvelope
published = notes_envelope "c3" ∷ notes_envelope "c4" ∷ []

abbrev stored : List SyncEnvelope
stored = notes_envelope "c2" ∷ notes_envelope "c3" ∷ []

abbrev gap : SyncEnvelope
gap = build_reset_envelope "app" "notes" "c1" "c4" retention_gap

idle : get "notes" one_sent.replaying_scopes ≡ none
unfolding get
idle = refl

no_buffer : get "notes" one_sent.buffered_by_scope ≡ none
unfolding get
no_buffer = refl

of_notes : all_of (λ e. e.scope == "notes") published ≡ true
unfolding all_of
of_notes = refl

stored_fits : all_of fits_all stored ≡ true
unfolding all_of
stored_fits = refl

within_limit : length stored ≤ 10
within_limit = omega arith

replay_subscription-publish_all_example :
    replay_subscription fits_all
      (publish_all fits_all (start_replay one_sent "notes") published)
      "notes"
      true
      10
      stored
      gap
    ≡ send_envelopes fits_all one_sent (stored ++ published)
replay_subscription-publish_all_example =
    replay_subscription-publish_all fits_all one_sent "notes" 10 published stored gap idle no_buffer
      of_notes within_limit stored_fits

handle_replay_failure-publish_all_example :
    (handle_replay_failure fits_all
        (end_failed_replay (publish_all fits_all (start_replay one_sent "notes") published) "notes")
        "notes"
        gap
      ≡ close_stream (send_envelope fits_all one_sent gap))
    × ((close_stream (send_envelope fits_all one_sent gap)).closed ≡ true)
handle_replay_failure-publish_all_example =
    handle_replay_failure-publish_all fits_all one_sent "notes" published gap idle no_buffer
      of_notes

let_in : (increment_ip 2 (("10.0.0.1", 1) ∷ []) "10.0.0.1").1 ≡ true
unfolding increment_ip get
let_in = refl

decrement_ip-increment_ip_example :
    connections_of "10.0.0.1"
      (decrement_ip (increment_ip 2 (("10.0.0.1", 1) ∷ []) "10.0.0.1").0 "10.0.0.1")
    ≡ connections_of "10.0.0.1" (("10.0.0.1", 1) ∷ [])
decrement_ip-increment_ip_example =
    decrement_ip-increment_ip 2 (("10.0.0.1", 1) ∷ []) "10.0.0.1" "10.0.0.1" let_in

one_connection : connections_of "10.0.0.1" (("10.0.0.1", 1) ∷ []) ≤ 2
unfolding get
one_connection = omega arith

increment_ip-bounded_example :
    (connections_of "10.0.0.1" (increment_ip 2 (("10.0.0.1", 1) ∷ []) "10.0.0.1").0 ≤ 2)
    × (connections_of "10.0.0.1" (decrement_ip (("10.0.0.1", 1) ∷ []) "10.0.0.1") ≤ 2)
increment_ip-bounded_example =
    increment_ip-bounded 2 (("10.0.0.1", 1) ∷ []) "10.0.0.1" "10.0.0.1" one_connection
