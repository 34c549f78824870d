-- ===== src/Delivery/Failure.antt =====
-- The replay that fails in server/streamMultiplexer.ts.
use sync_resource.Shared.{
  ℕ, String, ◌≡◌, refl, ap, ◌∙◌, Bool, true, none, some, List, [], ◌∷◌, arith, ◌==◌,
}
use sync_resource.Shared.JsMap.{JsMap, get, put, delete, delete-put_new, delete-gone}
use sync_resource.Protocol.{SyncEnvelope}
use sync_resource.Delivery.{StreamState, send_envelope, start_replay}
use sync_resource.Delivery.Held.{all_of, held}
use sync_resource.Delivery.{close_stream, end_failed_replay, handle_replay_failure}
use sync_resource.Delivery.Replay.{filled, publish_all, publish_all-start_replay, put_counted}

delete-filled :
    (scope : String) (buffers : JsMap (List SyncEnvelope)) (es : List SyncEnvelope)
    → get scope buffers ≡ none
    → delete scope (filled scope buffers es) ≡ buffers
delete-filled scope buffers [] empty = delete-gone scope buffers empty
delete-filled scope buffers (e ∷ es) empty = delete-put_new scope (e ∷ es) buffers empty

end_failed_last :
    (s : StreamState) (scope : String)
    → get scope s.replaying_scopes ≡ some 1
    → end_failed_replay s scope ≡ held (delete scope s.replaying_scopes) s.buffered_by_scope s
unfolding end_failed_replay
end_failed_last s scope e = rw (end_failed_replay, e) refl

close_stream-closed : (s : StreamState) → (close_stream s).closed ≡ true
unfolding close_stream
close_stream-closed s = ground arith

module _ (fits : SyncEnvelope → Bool) where
  -- A replay that fails sends nothing of what was published while it ran. Take a stream that is not
  -- replaying the scope and holds no buffer for it, and let any envelopes of the scope be published
  -- from the start of the replay until it fails: the stream ends closed, in the state in which the
  -- reset envelope alone was sent and the stream was closed.
  pub handle_replay_failure-publish_all :
      (s : StreamState) (scope : String) (published : List SyncEnvelope) (reset : SyncEnvelope)
      → get scope s.replaying_scopes ≡ none
      → get scope s.buffered_by_scope ≡ none
      → all_of (λ e. e.scope == scope) published ≡ true
      → (handle_replay_failure fits
            (end_failed_replay (publish_all fits (start_replay s scope) published) scope)
            scope
            reset
          ≡ close_stream (send_envelope fits s reset))
        × ((close_stream (send_envelope fits s reset)).closed ≡ true)
  unfolding handle_replay_failure
  handle_replay_failure-publish_all s scope published reset idle empty same =
      let buffers : JsMap (List SyncEnvelope) = filled scope s.buffered_by_scope published in
      (
        ap (λ (t : StreamState). handle_replay_failure fits t scope reset)
              (ap (λ (t : StreamState). end_failed_replay t scope)
                  (publish_all-start_replay fits s scope published idle empty same)
                ∙ end_failed_last (held (put scope 1 s.replaying_scopes) buffers s) scope
                    (put_counted scope s.replaying_scopes)
                ∙ ap (λ (m : JsMap ℕ). held m buffers s)
                    (delete-put_new scope 1 s.replaying_scopes idle))
            ∙ ap
                (λ (m : JsMap (List SyncEnvelope)).
                  close_stream (send_envelope fits (held s.replaying_scopes m s) reset))
                (delete-filled scope s.buffered_by_scope published empty),
        close_stream-closed (send_envelope fits s reset),
      )
