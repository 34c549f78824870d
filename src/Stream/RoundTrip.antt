-- ===== src/Stream/RoundTrip.antt =====
-- The chunks that shared/sse.ts makes of an envelope give client/runtime.ts the envelope back.
use sync_resource.Shared.{
  ℕ, zero, suc, ◌+◌, ◌-◌, ◌*◌, ◌≤◌, ◌<◌, String, ◌≡◌, refl, sym, ap, subst, ◌∙◌, true, false, none,
  some, List, [], ◌∷◌, arith, inl, inr, eq_refl, length, take, leb, ltb, eqb, Bool-cases,
}
use sync_resource.Shared.JsMap.{JsMap, get, put, delete, get-put, delete-put_new, put-put}
use sync_resource.Stream.{
  Units, max_sse_frame_bytes, sync_frame_overhead_bytes, max_chunked_sync_bytes,
  max_pending_sync_chunks, sync_chunk_chars, Chunk, Frames, encode_sync_envelope_sse_frames,
  slice_at, chunks_from, chunk_count, PendingChunks, join_chunks, is_refused, make_room,
  new_pending, add_chunk, accept_into, accept_sync_envelope_chunk, accept_all,
}
use sync_resource.Stream.Slices.{
  take-all, first_slices, length-first_slices, is_missing-end, write_chunk-end, join-first_slices,
}
use sync_resource.Stream.Sending.{
  Received, chunk_at, chunk_count_enough, chunk_count_some, chunks_from_none, chunks_from_step,
  completed, pending_at, receive_last, receive_more,
}

module _ (utf8_length : Units → ℕ) (id : String) (serialized : Units) (total total_bytes : ℕ) where
  add_chunk_next :
      (k : ℕ)
      → add_chunk
          (chunk_at id total total_bytes serialized k)
          (pending_at total total_bytes serialized k)
        ≡ pending_at total total_bytes serialized (suc k)
  unfolding add_chunk
  add_chunk_next k =
      let slices = first_slices sync_chunk_chars serialized k in
      let size = length-first_slices sync_chunk_chars serialized k in
      let next : k + 1 ≡ suc k = omega arith in
      rw
        (
          is_missing-end slices k size,
          write_chunk-end slices k (slice_at sync_chunk_chars serialized k) size,
          next,
        )
        refl

  -- A chunk that is not the last one is kept.
  accept_into_more :
      (k : ℕ) (pending : JsMap PendingChunks)
      → suc k < total
      → accept_into utf8_length
          (chunk_at id total total_bytes serialized k)
          (pending_at total total_bytes serialized k)
          pending
        ≡ (put id (pending_at total total_bytes serialized (suc k)) pending, none)
  unfolding accept_into
  accept_into_more k pending more =
      let same : eqb total total ≡ true = ground arith in
      let same_bytes : eqb total_bytes total_bytes ≡ true = ground arith in
      let short : ltb (suc k) total ≡ true = ground arith in
      rw (add_chunk_next k, same, same_bytes, short) refl

  -- The last chunk completes the text.
  accept_into_last :
      (k : ℕ) (pending : JsMap PendingChunks)
      → suc k ≡ total
      → length serialized ≤ total * sync_chunk_chars
      → utf8_length serialized ≡ total_bytes
      → accept_into utf8_length
          (chunk_at id total total_bytes serialized k)
          (pending_at total total_bytes serialized k)
          pending
        ≡ (delete id pending, some serialized)
  unfolding accept_into
  accept_into_last k pending last enough bytes =
      let same : eqb total total ≡ true = ground arith in
      let same_bytes : eqb total_bytes total_bytes ≡ true = ground arith in
      let full : ltb (suc k) total ≡ false = ground arith in
      let joined : join_chunks (first_slices sync_chunk_chars serialized (suc k)) ≡ serialized =
        join-first_slices sync_chunk_chars serialized (suc k)
        ∙ ap (λ (n : ℕ). take (n * sync_chunk_chars) serialized) last
        ∙ take-all (total * sync_chunk_chars) serialized enough in
      rw (add_chunk_next k, same, same_bytes, full, joined, bytes, same_bytes) refl

  -- The map when `k` chunks of the envelope have come.
  abbrev held : JsMap PendingChunks → ℕ → JsMap PendingChunks
  held pending zero = pending
  held pending (suc k) = put id (pending_at total total_bytes serialized (suc k)) pending

  found :
      (pending : JsMap PendingChunks) (k : ℕ)
      → get id (held pending (suc k)) ≡ some (pending_at total total_bytes serialized (suc k))
  found pending k =
      rw (get-put id id (pending_at total total_bytes serialized (suc k)) pending, eq_refl id) refl

  module _ (pending : JsMap PendingChunks) (fresh : get id pending ≡ none)
      (room : length pending < max_pending_sync_chunks) (some_bytes : 0 < total_bytes)
      (few_bytes : total_bytes ≤ max_chunked_sync_bytes) where
    allowed : (k : ℕ) → k < total → is_refused (chunk_at id total total_bytes serialized k) ≡ false
    unfolding is_refused
    allowed k inside = ground arith

    kept_room : make_room pending ≡ pending
    unfolding make_room
    kept_room =
        let free : leb max_pending_sync_chunks (length pending) ≡ false = ground arith in
        rw free refl

    accept_more :
        (k : ℕ)
        → suc k < total
        → accept_sync_envelope_chunk utf8_length
            (chunk_at id total total_bytes serialized k)
            (held pending k)
          ≡ (held pending (suc k), none)
    unfolding accept_sync_envelope_chunk new_pending
    accept_more zero more =
        let first = pending_at total total_bytes serialized 0 in
        rw (allowed 0 (omega arith), fresh, accept_sync_envelope_chunk, kept_room)
          (accept_into_more 0 (put id first pending) more
            ∙ ap (λ (m : JsMap PendingChunks). (m, none))
                (put-put id first (pending_at total total_bytes serialized 1) pending))
    accept_more (suc k) more =
        rw (allowed (suc k) (omega arith), found pending k, accept_sync_envelope_chunk)
          (accept_into_more (suc k) (held pending (suc k)) more
            ∙ ap (λ (m : JsMap PendingChunks). (m, none))
                (put-put id (pending_at total total_bytes serialized (suc k))
                  (pending_at total total_bytes serialized (suc (suc k))) pending))

    accept_last :
        (k : ℕ)
        → suc k ≡ total
        → length serialized ≤ total * sync_chunk_chars
        → utf8_length serialized ≡ total_bytes
        → accept_sync_envelope_chunk utf8_length
            (chunk_at id total total_bytes serialized k)
            (held pending k)
          ≡ (pending, some serialized)
    unfolding accept_sync_envelope_chunk new_pending
    accept_last zero last enough bytes =
        let first = pending_at total total_bytes serialized 0 in
        rw (allowed 0 (omega arith), fresh, accept_sync_envelope_chunk, kept_room)
          (accept_into_last 0 (put id first pending) last enough bytes
            ∙ ap (λ (m : JsMap PendingChunks). (m, some serialized))
                (delete-put_new id first pending fresh))
    accept_last (suc k) last enough bytes =
        rw (allowed (suc k) (omega arith), found pending k, accept_sync_envelope_chunk)
          (accept_into_last (suc k) (held pending (suc k)) last enough bytes
            ∙ ap (λ (m : JsMap PendingChunks). (m, some serialized))
                (delete-put_new id (pending_at total total_bytes serialized (suc k)) pending fresh))

    accept_rest :
        (count k : ℕ)
        → k + suc count ≡ total
        → length serialized ≤ total * sync_chunk_chars
        → utf8_length serialized ≡ total_bytes
        → Received utf8_length
            (chunks_from id total total_bytes serialized sync_chunk_chars k (suc count))
            (held pending k)
            pending
            serialized
    accept_rest zero k e enough bytes =
        subst (λ cs. Received utf8_length cs (held pending k) pending serialized)
          (sym (chunks_from_step id total total_bytes serialized k 0))
          (receive_last utf8_length _ _ (held pending k) pending pending serialized
            (chunks_from_none id total total_bytes serialized (suc k))
            (accept_last k (omega arith) enough bytes))
    accept_rest (suc count) k e enough bytes =
        subst (λ cs. Received utf8_length cs (held pending k) pending serialized)
          (sym (chunks_from_step id total total_bytes serialized k (suc count)))
          (receive_more utf8_length _ _ (held pending k) (held pending (suc k)) pending serialized
            (accept_more k (omega arith)) (accept_rest count (suc k) (omega arith) enough bytes))

length_of_bytes :
    (utf8_length : Units → ℕ) (serialized : Units)
    → utf8_length [] ≡ 0
    → 0 < utf8_length serialized
    → 0 < length serialized
length_of_bytes utf8_length [] nil_bytes h = absurd (omega (arith, nil_bytes))
length_of_bytes utf8_length (u ∷ us) nil_bytes h = omega arith

accept_sent :
    (utf8_length : Units → ℕ) (id : String) (serialized : Units) (pending : JsMap PendingChunks)
    → get id pending ≡ none
    → length pending < max_pending_sync_chunks
    → utf8_length serialized ≤ max_chunked_sync_bytes
    → 0 < utf8_length serialized
    → 0 < length serialized
    → let total = chunk_count (length serialized) sync_chunk_chars in
      Received utf8_length
        (chunks_from id total (utf8_length serialized) serialized sync_chunk_chars 0 total)
        pending
        pending
        serialized
accept_sent utf8_length id serialized pending fresh room few some_bytes some_units =
    let total_bytes = utf8_length serialized in
    let total = chunk_count (length serialized) sync_chunk_chars in
    let some_chunks = chunk_count_some (length serialized) some_units in
    let e : suc (total - 1) ≡ total = omega (arith, some_chunks) in
    subst
      (λ count.
        Received utf8_length (chunks_from id total total_bytes serialized sync_chunk_chars 0 count)
          pending pending serialized)
      e
      (accept_rest utf8_length id serialized total total_bytes pending fresh room some_bytes few
        (total - 1) 0 (omega (arith, some_chunks)) (chunk_count_enough (length serialized)) refl)

chunked_injective : {cs ds : List Chunk} → Frames.chunked cs ≡ Frames.chunked ds → cs ≡ ds
chunked_injective e = cc

-- An envelope that is sent in chunks is received: with every chunk in its order, a receiver that
-- holds no chunks under its id and fewer entries than the bound completes exactly this text, and its
-- pending entries are afterwards those from before, if the text keeps to the receiver's byte bound
-- and an empty text has no bytes.
pub accept_all-encode :
    (utf8_length : Units → ℕ) (id : String) (serialized : Units) (max_envelope_bytes : ℕ)
    (cs : List Chunk) (pending : JsMap PendingChunks)
    → utf8_length [] ≡ 0
    → encode_sync_envelope_sse_frames utf8_length id serialized max_envelope_bytes
      ≡ Frames.chunked cs
    → get id pending ≡ none
    → length pending < max_pending_sync_chunks
    → utf8_length serialized ≤ max_chunked_sync_bytes
    → ((accept_all utf8_length cs pending).0 ≡ pending)
      × (completed (accept_all utf8_length cs pending).1 ≡ serialized ∷ [])
unfolding encode_sync_envelope_sse_frames
accept_all-encode utf8_length id serialized max_envelope_bytes cs pending nil_bytes sent fresh room
      few =
    let total_bytes = utf8_length serialized in
    let frame_bytes = total_bytes + sync_frame_overhead_bytes in
    elim (Bool-cases (ltb max_envelope_bytes frame_bytes)) [
      | inl large ↦ cc (rw large at sent)
      | inr fits ↦ elim (Bool-cases (leb frame_bytes max_sse_frame_bytes)) [
        | inl small ↦ cc (rw (fits, small) at sent)
        | inr split ↦
            let some_bytes : 0 < total_bytes = ground arith in
            let sent' = rw (fits, split) at sent in
            subst (λ cs. Received utf8_length cs pending pending serialized)
              (chunked_injective sent')
              (accept_sent utf8_length id serialized pending fresh room few some_bytes
                (length_of_bytes utf8_length serialized nil_bytes some_bytes))
      ]
    ]
