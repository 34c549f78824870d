-- ===== src/Delivery/Replay.antt =====
-- The envelopes that server/streamMultiplexer.ts publishes to a stream while it replays their scope.
use sync_resource.Shared.{
  if_true, ℕ, ◌≤◌, String, ◌≡◌, refl, sym, ap, ◌∙◌, Bool, true, false, Option, none, some, List, [],
  ◌∷◌, ◌++◌, arith, eq_iff, eq_refl, length, ltb, is_some, or_default, ◌==◌,
}
use mathlib.Core.List.{append-nil, append_assoc}
use sync_resource.Shared.JsMap.{JsMap, get, put, delete, has, get-put, delete-put_new, put-put}
use sync_resource.Protocol.{SyncEnvelope}
use sync_resource.Delivery.{
  StreamState, send_envelope, send_envelopes, publish_to_stream, start_replay, flush_buffered_scope,
  end_replay, replay_subscription,
}
use sync_resource.Delivery.Held.{all_of, held, send_envelopes-held}

-- the map of buffers after the publishes
abbrev pub filled :
    String → JsMap (List SyncEnvelope) → List SyncEnvelope → JsMap (List SyncEnvelope)
filled scope buffers [] = buffers
filled scope buffers (e ∷ es) = put scope (e ∷ es) buffers

pub put_counted : (scope : String) (m : JsMap ℕ) → get scope (put scope 1 m) ≡ some 1
put_counted scope m = rw (get-put scope scope 1 m, eq_refl scope) refl

put_stored :
    (scope : String) (b : List SyncEnvelope) (m : JsMap (List SyncEnvelope))
    → get scope (put scope b m) ≡ some b
put_stored scope b m = rw (get-put scope scope b m, eq_refl scope) refl

module _ (fits : SyncEnvelope → Bool) where
  send_envelopes-append :
      (s : StreamState) (xs ys : List SyncEnvelope)
      → send_envelopes fits (send_envelopes fits s xs) ys ≡ send_envelopes fits s (xs ++ ys)
  unfolding send_envelopes
  send_envelopes-append s [] ys = refl
  send_envelopes-append s (x ∷ xs) ys = send_envelopes-append (send_envelope fits s x) xs ys

  -- a run of live publishes
  unfoldable pub publish_all : StreamState → List SyncEnvelope → StreamState
  publish_all s [] = s
  publish_all s (e ∷ es) = publish_all (publish_to_stream fits s e) es

  publish_to_stream-held :
      (s : StreamState) (e : SyncEnvelope) (scope : String) (acc : List SyncEnvelope)
      → e.scope ≡ scope
      → has scope s.replaying_scopes ≡ true
      → or_default (get scope s.buffered_by_scope) [] ≡ acc
      → publish_to_stream fits s e
        ≡ held s.replaying_scopes (put scope (acc ++ e ∷ []) s.buffered_by_scope) s
  unfolding publish_to_stream
  publish_to_stream-held s e scope acc here busy stored =
      let now : String → List SyncEnvelope → StreamState =
        λ k b. held s.replaying_scopes (put k (b ++ e ∷ []) s.buffered_by_scope) s in
      if_true (has e.scope s.replaying_scopes) _ _
        (ap (λ (k : String). has k s.replaying_scopes) here ∙ busy)
      ∙ ap (λ (k : String). now k (or_default (get k s.buffered_by_scope) [])) here
      ∙ ap (now scope) stored

  publish_all-held :
      (scope : String) (replaying : JsMap ℕ) (buffers : JsMap (List SyncEnvelope)) (s : StreamState)
      (acc es : List SyncEnvelope)
      → has scope replaying ≡ true
      → all_of (λ e. e.scope == scope) es ≡ true
      → publish_all (held replaying (put scope acc buffers) s) es
        ≡ held replaying (put scope (acc ++ es) buffers) s
  unfolding publish_all publish_to_stream all_of
  publish_all-held scope replaying buffers s acc [] busy same =
      ap (λ (b : List SyncEnvelope). held replaying (put scope b buffers) s) (sym (append-nil acc))
  publish_all-held scope replaying buffers s acc (e ∷ es) busy same =
      let here : e.scope ≡ scope = (eq_iff e.scope scope).0 (ground arith) in
      let before : StreamState = held replaying (put scope acc buffers) s in
      let stored =
        ap (λ (b : Option (List SyncEnvelope)). or_default b []) (put_stored scope acc buffers) in
      ap (λ (t : StreamState). publish_all t es)
        (publish_to_stream-held before e scope acc here busy stored
          ∙ ap (λ (m : JsMap (List SyncEnvelope)). held replaying m s)
              (put-put scope acc (acc ++ e ∷ []) buffers))
      ∙ publish_all-held scope replaying buffers s (acc ++ e ∷ []) es busy (ground arith)
      ∙ ap (λ (b : List SyncEnvelope). held replaying (put scope b buffers) s)
          (append_assoc acc (e ∷ []) es)

  pub publish_all-start_replay :
      (s : StreamState) (scope : String) (es : List SyncEnvelope)
      → get scope s.replaying_scopes ≡ none
      → get scope s.buffered_by_scope ≡ none
      → all_of (λ e. e.scope == scope) es ≡ true
      → publish_all (start_replay s scope) es
        ≡ held (put scope 1 s.replaying_scopes) (filled scope s.buffered_by_scope es) s
  unfolding start_replay publish_all publish_to_stream all_of
  publish_all-start_replay s scope [] idle empty same = rw idle refl
  publish_all-start_replay s scope (e ∷ es) idle empty same =
      let here : e.scope ≡ scope = (eq_iff e.scope scope).0 (ground arith) in
      let replaying : JsMap ℕ = put scope 1 s.replaying_scopes in
      let busy = ap is_some (put_counted scope s.replaying_scopes) in
      let none_stored = ap (λ (b : Option (List SyncEnvelope)). or_default b []) empty in
      rw idle (
        ap (λ (t : StreamState). publish_all t es)
          (publish_to_stream-held (held replaying s.buffered_by_scope s) e scope [] here busy
            none_stored)
        ∙ publish_all-held scope replaying s.buffered_by_scope s (e ∷ []) es busy (ground arith))

  flush_none :
      (s : StreamState) (scope : String)
      → get scope s.buffered_by_scope ≡ none
      → flush_buffered_scope fits s scope ≡ s
  unfolding flush_buffered_scope
  flush_none s scope e = rw (flush_buffered_scope, e) refl

  flush_some :
      (s : StreamState) (scope : String) (es : List SyncEnvelope)
      → get scope s.buffered_by_scope ≡ some es
      → flush_buffered_scope fits s scope
        ≡ send_envelopes fits (held s.replaying_scopes (delete scope s.buffered_by_scope) s) es
  unfolding flush_buffered_scope
  flush_some s scope es e = rw (flush_buffered_scope, e) refl

  end_last :
      (s : StreamState) (scope : String)
      → get scope s.replaying_scopes ≡ some 1
      → end_replay fits s scope
        ≡ flush_buffered_scope fits
            (held (delete scope s.replaying_scopes) s.buffered_by_scope s)
            scope
  unfolding end_replay
  end_last s scope e = rw e refl

  flush_filled :
      (s : StreamState) (scope : String) (es : List SyncEnvelope)
      → get scope s.buffered_by_scope ≡ none
      → flush_buffered_scope fits
          (held s.replaying_scopes (filled scope s.buffered_by_scope es) s)
          scope
        ≡ send_envelopes fits s es
  unfolding send_envelopes
  flush_filled s scope [] empty = flush_none s scope empty
  flush_filled s scope (e ∷ es) empty =
      flush_some (held s.replaying_scopes (put scope (e ∷ es) s.buffered_by_scope) s) scope (e ∷ es)
        (put_stored scope (e ∷ es) s.buffered_by_scope)
      ∙ ap
          (λ (m : JsMap (List SyncEnvelope)).
            send_envelopes fits (held s.replaying_scopes m s) (e ∷ es))
          (delete-put_new scope (e ∷ es) s.buffered_by_scope empty)

  end_replay-held :
      (s : StreamState) (scope : String) (es : List SyncEnvelope)
      → get scope s.replaying_scopes ≡ none
      → get scope s.buffered_by_scope ≡ none
      → end_replay fits
          (held (put scope 1 s.replaying_scopes) (filled scope s.buffered_by_scope es) s)
          scope
        ≡ send_envelopes fits s es
  end_replay-held s scope es idle empty =
      let buffers : JsMap (List SyncEnvelope) = filled scope s.buffered_by_scope es in
      end_last (held (put scope 1 s.replaying_scopes) buffers s) scope
        (put_counted scope s.replaying_scopes)
      ∙ ap (λ (m : JsMap ℕ). flush_buffered_scope fits (held m buffers s) scope)
          (delete-put_new scope 1 s.replaying_scopes idle)
      ∙ flush_filled s scope es empty

  send_envelopes-replaying_scopes :
      (s : StreamState) (es : List SyncEnvelope)
      → all_of fits es ≡ true
      → (send_envelopes fits s es).replaying_scopes ≡ s.replaying_scopes
  send_envelopes-replaying_scopes s es fit =
      ap (λ (t : StreamState). t.replaying_scopes)
        (send_envelopes-held s.replaying_scopes s.buffered_by_scope fits s es fit)

  send_envelopes-buffered_by_scope :
      (s : StreamState) (es : List SyncEnvelope)
      → all_of fits es ≡ true
      → (send_envelopes fits s es).buffered_by_scope ≡ s.buffered_by_scope
  send_envelopes-buffered_by_scope s es fit =
      ap (λ (t : StreamState). t.buffered_by_scope)
        (send_envelopes-held s.replaying_scopes s.buffered_by_scope fits s es fit)

  -- A replay of a scope loses nothing and keeps the order. Take a stream that is not replaying the
  -- scope and holds no buffer for it, and let any envelopes of the scope be published between the
  -- start of the replay and the answer of the outbox. If the answer knows the cursor and is within the
  -- limit, and its envelopes fit the stream, the stream ends in the state in which the envelopes of the
  -- outbox, and after them the published ones in their order, have been sent one by one, each of them
  -- once for its cursor in the window.
  pub replay_subscription-publish_all :
      (s : StreamState) (scope : String) (limit : ℕ) (published stored : List SyncEnvelope)
      (reset : SyncEnvelope)
      → get scope s.replaying_scopes ≡ none
      → get scope s.buffered_by_scope ≡ none
      → all_of (λ e. e.scope == scope) published ≡ true
      → length stored ≤ limit
      → all_of fits stored ≡ true
      → replay_subscription fits
          (publish_all (start_replay s scope) published)
          scope
          true
          limit
          stored
          reset
        ≡ send_envelopes fits s (stored ++ published)
  unfolding replay_subscription
  replay_subscription-publish_all s scope limit published stored reset idle empty same within fit =
      let within_limit : ltb limit (length stored) ≡ false = ground arith in
      let after : StreamState = send_envelopes fits s stored in
      let replaying = send_envelopes-replaying_scopes s stored fit in
      let buffered = send_envelopes-buffered_by_scope s stored fit in
      rw
        (
          publish_all-start_replay s scope published idle empty same,
          within_limit,
          send_envelopes-held (put scope 1 s.replaying_scopes)
              (filled scope s.buffered_by_scope published) fits s stored fit,
        )
        (ap
            (λ (m : JsMap ℕ).
              end_replay fits
                (held (put scope 1 m) (filled scope s.buffered_by_scope published) after) scope)
            (sym replaying)
          ∙ ap
              (λ (m : JsMap (List SyncEnvelope)).
                end_replay fits
                  (held (put scope 1 after.replaying_scopes) (filled scope m published) after)
                  scope)
              (sym buffered)
          ∙ end_replay-held after scope published (ap (get scope) replaying ∙ idle)
              (ap (get scope) buffered ∙ empty)
          ∙ send_envelopes-append s stored published)
