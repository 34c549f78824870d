-- ===== src/Examples/Chunks.antt =====
-- The chunks of shared/sse.ts for a text of 300,000 characters, each of one byte.
use sync_resource.Shared.{ℕ, zero, suc, ◌≤◌, ◌≡◌, refl, ap, none, List, [], ◌∷◌, arith, length}
use sync_resource.Shared.JsMap.{get}
use sync_resource.Stream.{
  Units, sync_chunk_chars, Chunk, Frames, PendingChunks, chunks_from, chunk_count,
  encode_sync_envelope_sse_frames, accept_all,
}
use sync_resource.Stream.RoundTrip.{accept_all-encode}
use sync_resource.Stream.Sending.{completed}

unfoldable repeated : ℕ → Units
repeated zero = []
repeated (suc n) = 97 ∷ repeated n

length-repeated : (n : ℕ) → length (repeated n) ≡ n
unfolding repeated
length-repeated zero = refl
length-repeated (suc n) = ap suc (length-repeated n)

abbrev long_text : Units
long_text = repeated 300000

abbrev long_chunks : List Chunk
long_chunks =
    chunks_from "notes" (chunk_count (length long_text) sync_chunk_chars) (length long_text)
      long_text sync_chunk_chars 0 (chunk_count (length long_text) sync_chunk_chars)

long_text_sent :
    encode_sync_envelope_sse_frames length "notes" long_text 500000 ≡ Frames.chunked long_chunks
unfolding encode_sync_envelope_sse_frames
long_text_sent = rw (length-repeated 300000) refl

long_text_allowed : length long_text ≤ 1048576
long_text_allowed = rw (length-repeated 300000) (omega arith)

none_pending : get {V = PendingChunks} "notes" [] ≡ none
unfolding get
none_pending = refl

accept_all-encode_example :
    ((accept_all length long_chunks []).0 ≡ [])
    × (completed (accept_all length long_chunks []).1 ≡ long_text ∷ [])
accept_all-encode_example =
    accept_all-encode length "notes" long_text 500000 long_chunks [] refl long_text_sent
      none_pending (omega arith) long_text_allowed
