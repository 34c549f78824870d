-- ===== src/Stream.antt =====
-- shared/sse.ts and the chunks of client/runtime.ts: a large envelope travels as numbered chunks.
-- A text is its UTF-16 code units, and `utf8_length` is the byte length that TextEncoder gives it.
pub mod RoundTrip
pub mod Slices
pub mod Sending
use sync_resource.Shared.{
  ℕ, zero, suc, ◌+◌, ◌-◌, ◌*◌, ◌/◌, String, Bool, true, false, not, ◌&&◌, ◌||◌, Option, none, some,
  List, [], ◌∷◌, ◌++◌, length, get_elem?, take, drop, leb, ltb, eqb, if◌then◌else◌,
}
use sync_resource.Shared.JsMap.{JsMap, get, put, delete}

abbrev pub Units : Type 0
Units = List ℕ

abbrev pub max_sse_frame_bytes : ℕ
max_sse_frame_bytes = 262144

abbrev pub max_chunked_sync_bytes : ℕ
max_chunked_sync_bytes = 1048576

abbrev pub sync_chunk_chars : ℕ
sync_chunk_chars = 65536

-- the length of `event: sync\ndata: \n\n`
abbrev pub sync_frame_overhead_bytes : ℕ
sync_frame_overhead_bytes = 20

abbrev pub max_pending_sync_chunks : ℕ
max_pending_sync_chunks = 32

-- SyncEnvelopeChunk
pub record Chunk : Type 0 where
  pub id : String
  pub index : ℕ
  pub total : ℕ
  pub total_bytes : ℕ
  pub units : Units

-- What encodeSyncEnvelopeSseFrames answers: nothing, the one full frame, or the chunks.
pub data Frames : Type 0 where
  too_large : Frames
  whole : Units → Frames
  chunked : List Chunk → Frames

-- `serialized.slice(index * SYNC_CHUNK_CHARS, (index + 1) * SYNC_CHUNK_CHARS)`
unfoldable pub slice_at : ℕ → Units → ℕ → Units
slice_at chars serialized index = take chars (drop (index * chars) serialized)

-- `Array.from({ length }, …)`, from `index`, with `count` left
unfoldable pub chunks_from : String → ℕ → ℕ → Units → ℕ → ℕ → ℕ → List Chunk
unfolding slice_at
chunks_from id total total_bytes serialized chars index zero = []
chunks_from id total total_bytes serialized chars index (suc count) =
    record {
      id = id;
      index = index;
      total = total;
      total_bytes = total_bytes;
      units = slice_at chars serialized index;
    }
    ∷ chunks_from id total total_bytes serialized chars (index + 1) count

-- `Math.ceil(length / SYNC_CHUNK_CHARS)`
unfoldable pub chunk_count : ℕ → ℕ → ℕ
chunk_count size chars = (size + (chars - 1)) / chars

module _ (utf8_length : Units → ℕ) where
  -- encodeSyncEnvelopeSseFrames, for the envelope's id and its JSON
  unfoldable pub encode_sync_envelope_sse_frames : String → Units → ℕ → Frames
  unfolding chunks_from chunk_count
  encode_sync_envelope_sse_frames id serialized max_envelope_bytes =
      let total_bytes = utf8_length serialized in
      let frame_bytes = total_bytes + sync_frame_overhead_bytes in
      let total = chunk_count (length serialized) sync_chunk_chars in
      if ltb max_envelope_bytes frame_bytes
      then Frames.too_large
      else if leb frame_bytes max_sse_frame_bytes
      then Frames.whole serialized
      else Frames.chunked (chunks_from id total total_bytes serialized sync_chunk_chars 0 total)

-- PendingSyncEnvelopeChunks: `none` is a hole of the array.
pub record PendingChunks : Type 0 where
  pub chunks : List (Option Units)
  pub total : ℕ
  pub total_bytes : ℕ
  pub received : ℕ

-- `chunks[index] = data`: a write past the end leaves holes.
unfoldable pub write_chunk : ℕ → Units → List (Option Units) → List (Option Units)
write_chunk zero units [] = some units ∷ []
write_chunk zero units (c ∷ cs) = some units ∷ cs
write_chunk (suc i) units [] = none ∷ write_chunk i units []
write_chunk (suc i) units (c ∷ cs) = c ∷ write_chunk i units cs

-- `chunks[index] === undefined`
unfoldable pub is_missing : ℕ → List (Option Units) → Bool
is_missing i [] = true
is_missing zero (none ∷ cs) = true
is_missing zero (some units ∷ cs) = false
is_missing (suc i) (c ∷ cs) = is_missing i cs

-- `chunks.join('')`
unfoldable pub join_chunks : List (Option Units) → Units
join_chunks [] = []
join_chunks (none ∷ cs) = join_chunks cs
join_chunks (some units ∷ cs) = units ++ join_chunks cs

-- the first guard of acceptSyncEnvelopeChunk
unfoldable pub is_refused : Chunk → Bool
is_refused c =
    eqb c.total 0
    || leb c.total c.index
    || eqb c.total_bytes 0
    || ltb max_chunked_sync_bytes c.total_bytes

-- pruneOldestPendingSyncChunk
unfoldable pub prune_oldest : JsMap PendingChunks → JsMap PendingChunks
prune_oldest [] = []
prune_oldest (p ∷ ps) = ps

unfoldable pub make_room : JsMap PendingChunks → JsMap PendingChunks
unfolding prune_oldest
make_room pending =
    if leb max_pending_sync_chunks (length pending) then prune_oldest pending else pending

unfoldable pub new_pending : Chunk → PendingChunks
new_pending c = record { chunks = []; total = c.total; total_bytes = c.total_bytes; received = 0 }

-- `pending.chunks[chunk.index] = chunk.data` and the count, if it is not there
unfoldable pub add_chunk : Chunk → PendingChunks → PendingChunks
unfolding is_missing write_chunk
add_chunk c p =
    if is_missing c.index p.chunks
    then record p { chunks = write_chunk c.index c.units p.chunks; received = p.received + 1 }
    else p

module _ (utf8_length : Units → ℕ) where
  -- acceptSyncEnvelopeChunk for the pending entry that is found or made, which stands in the map
  unfoldable pub accept_into :
      Chunk → PendingChunks → JsMap PendingChunks → JsMap PendingChunks × Option Units
  accept_into c p pending =
      let added = add_chunk c p in
      let serialized = join_chunks added.chunks in
      if not (eqb p.total c.total) || not (eqb p.total_bytes c.total_bytes)
      then (delete c.id pending, none)
      else if ltb added.received added.total
      then (put c.id added pending, none)
      else if eqb (utf8_length serialized) added.total_bytes
      then (delete c.id pending, some serialized)
      else (delete c.id pending, none)

  -- acceptSyncEnvelopeChunk
  unfoldable pub accept_sync_envelope_chunk :
      Chunk → JsMap PendingChunks → JsMap PendingChunks × Option Units
  accept_sync_envelope_chunk c pending =
      if is_refused c then (pending, none) else elim (get c.id pending) [
        | some p ↦ accept_into c p pending
        | none ↦ accept_into c (new_pending c) (put c.id (new_pending c) (make_room pending))
      ]

  -- The chunks as they arrive: what each of them completes.
  unfoldable pub accept_all :
      List Chunk → JsMap PendingChunks → JsMap PendingChunks × List (Option Units)
  accept_all [] pending = (pending, [])
  accept_all (c ∷ cs) pending =
      let (pending', answer) = accept_sync_envelope_chunk c pending in
      let (pending'', answers) = accept_all cs pending' in (pending'', answer ∷ answers)
