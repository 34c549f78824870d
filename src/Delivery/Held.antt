-- ===== src/Delivery/Held.antt =====
-- What server/streamMultiplexer.ts sends does not touch the replays and the buffers of a stream.
use sync_resource.Shared.{
  if_true, if_false, ℕ, zero, suc, ◌-◌, ◌*◌, String, ◌≡◌, refl, sym, ap, ◌∙◌, Bool, true, false,
  ◌&&◌, List, [], ◌∷◌, ◌++◌, arith, inl, inr, length, ltb, Bool-cases,
}
use sync_resource.Shared.JsMap.{JsMap}
use sync_resource.Protocol.{SyncEnvelope}
use sync_resource.Optimistic.Pages.{contains}
use sync_resource.Delivery.{
  sent_cursor_window, StreamState, drop_stale, drop_stale_all, compact, remember_sent_cursor,
  send_frames, send_envelope, send_envelopes,
}

-- whether a test holds of every envelope of a list
unfoldable pub all_of : (SyncEnvelope → Bool) → List SyncEnvelope → Bool
all_of test [] = true
all_of test (e ∷ es) = let rest = all_of test es in test e && rest

-- a stream that holds these counts of replays and these buffers
abbrev pub held : JsMap ℕ → JsMap (List SyncEnvelope) → StreamState → StreamState
held replaying buffers s = record s { replaying_scopes = replaying; buffered_by_scope = buffers }

send_frames_closed :
    (fits : SyncEnvelope → Bool) (s : StreamState) (e : SyncEnvelope)
    → s.closed ≡ true
    → send_frames fits s e ≡ s
unfolding send_frames
send_frames_closed fits s e closed = if_true s.closed s _ closed

send_frames_open :
    (fits : SyncEnvelope → Bool) (s : StreamState) (e : SyncEnvelope)
    → s.closed ≡ false
    → fits e ≡ true
    → send_frames fits s e ≡ record s { sent = s.sent ++ e ∷ [] }
unfolding send_frames
send_frames_open fits s e still_open fit =
    if_false s.closed s _ still_open ∙ if_true (fits e) _ _ fit

module _ (replaying : JsMap ℕ) (buffers : JsMap (List SyncEnvelope)) where
  drop_stale-held :
      (s : StreamState)
      → drop_stale (held replaying buffers s) ≡ held replaying buffers (drop_stale s)
  unfolding drop_stale
  drop_stale-held s = refl

  drop_stale_all-held :
      (rounds : ℕ) (s : StreamState)
      → drop_stale_all rounds (held replaying buffers s)
        ≡ held replaying buffers (drop_stale_all rounds s)
  unfolding drop_stale_all
  drop_stale_all-held zero s = refl
  drop_stale_all-held (suc rounds) s =
      ap (drop_stale_all rounds) (drop_stale-held s) ∙ drop_stale_all-held rounds (drop_stale s)

  compact-held :
      (s : StreamState) → compact (held replaying buffers s) ≡ held replaying buffers (compact s)
  unfolding compact
  compact-held s =
      elim (Bool-cases (
        ltb 1024 s.sent_cursor_start
        && ltb (length s.sent_cursor_order) (s.sent_cursor_start * 2))) [
          | inl much ↦ rw much refl
          | inr little ↦ rw little refl
        ]

  remember_sent_cursor-held :
      (s : StreamState) (cursor : String)
      → remember_sent_cursor (held replaying buffers s) cursor ≡ (
        held replaying buffers (remember_sent_cursor s cursor).0,
        (remember_sent_cursor s cursor).1,
      )
  unfolding remember_sent_cursor
  remember_sent_cursor-held s cursor =
      let added : StreamState = record s {
        sent_cursors = s.sent_cursors ++ cursor ∷ [];
        sent_cursor_order = s.sent_cursor_order ++ cursor ∷ [];
      } in
      let over : ℕ =
        length added.sent_cursor_order - added.sent_cursor_start - sent_cursor_window in
      elim (Bool-cases (contains cursor s.sent_cursors)) [
        | inl seen ↦ rw seen refl
        | inr new ↦ rw new (
            ap (λ (t : StreamState). (t, true))
              (ap compact (drop_stale_all-held over added)
                ∙ compact-held (drop_stale_all over added)))
      ]

  module _ (fits : SyncEnvelope → Bool) where
    send_frames-held :
        (s : StreamState) (e : SyncEnvelope)
        → fits e ≡ true
        → send_frames fits (held replaying buffers s) e
          ≡ held replaying buffers (send_frames fits s e)
    send_frames-held s e fit = elim (Bool-cases s.closed) [
      | inl closed ↦
          send_frames_closed fits (held replaying buffers s) e closed
          ∙ ap (held replaying buffers) (sym (send_frames_closed fits s e closed))
      | inr still_open ↦
          send_frames_open fits (held replaying buffers s) e still_open fit
          ∙ ap (held replaying buffers) (sym (send_frames_open fits s e still_open fit))
    ]

    send_envelope-held :
        (s : StreamState) (e : SyncEnvelope)
        → fits e ≡ true
        → send_envelope fits (held replaying buffers s) e
          ≡ held replaying buffers (send_envelope fits s e)
    unfolding send_envelope
    send_envelope-held s e fit = elim (Bool-cases (remember_sent_cursor s e.cursor).1) [
      | inl new ↦
          rw (remember_sent_cursor-held s e.cursor, new)
            (send_frames-held (remember_sent_cursor s e.cursor).0 e fit)
      | inr seen ↦ rw (remember_sent_cursor-held s e.cursor, seen) refl
    ]

    pub send_envelopes-held :
        (s : StreamState) (es : List SyncEnvelope)
        → all_of fits es ≡ true
        → send_envelopes fits (held replaying buffers s) es
          ≡ held replaying buffers (send_envelopes fits s es)
    unfolding send_envelopes all_of
    send_envelopes-held s [] fit = refl
    send_envelopes-held s (e ∷ es) fit =
        ap (λ (t : StreamState). send_envelopes fits t es) (send_envelope-held s e (ground arith))
        ∙ send_envelopes-held (send_envelope fits s e) es (ground arith)
