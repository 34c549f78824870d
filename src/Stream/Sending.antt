-- ===== src/Stream/Sending.antt =====
-- The events that the stream of shared/sse.ts sends, as units.
use sync_resource.Shared.{
  ℕ, suc, ◌+◌, ◌*◌, ◌≤◌, ◌<◌, String, ◌≡◌, refl, Option, none, some, List, [], ◌∷◌, arith,
}
use sync_resource.Shared.JsMap.{JsMap}
use sync_resource.Stream.{
  Units, sync_chunk_chars, Chunk, slice_at, chunks_from, chunk_count, PendingChunks,
  accept_sync_envelope_chunk, accept_all,
}
use sync_resource.Stream.Slices.{first_slices}

-- The texts that a run of chunks completes.
abbrev pub completed : List (Option Units) → List Units
completed [] = []
completed (none ∷ answers) = completed answers
completed (some serialized ∷ answers) = serialized ∷ completed answers

-- Enough chunks for the whole text, and none of them past its end.
pub chunk_count_enough : (size : ℕ) → size ≤ chunk_count size sync_chunk_chars * sync_chunk_chars
unfolding chunk_count
chunk_count_enough size = omega arith

pub chunk_count_some : (size : ℕ) → 0 < size → 0 < chunk_count size sync_chunk_chars
unfolding chunk_count
chunk_count_some size h = omega arith

-- The entry of an envelope of which `k` chunks have come.
abbrev pub pending_at : ℕ → ℕ → Units → ℕ → PendingChunks
pending_at total total_bytes serialized k = record {
  chunks = first_slices sync_chunk_chars serialized k;
  total = total;
  total_bytes = total_bytes;
  received = k;
}

abbrev pub chunk_at : String → ℕ → ℕ → Units → ℕ → Chunk
chunk_at id total total_bytes serialized k = record {
  id = id;
  index = k;
  total = total;
  total_bytes = total_bytes;
  units = slice_at sync_chunk_chars serialized k;
}

pub chunks_from_step :
    (id : String) (total total_bytes : ℕ) (serialized : Units) (k count : ℕ)
    → chunks_from id total total_bytes serialized sync_chunk_chars k (suc count)
      ≡ chunk_at id total total_bytes serialized k
        ∷ chunks_from id total total_bytes serialized sync_chunk_chars (suc k) count
unfolding chunks_from
chunks_from_step id total total_bytes serialized k count =
    let next : k + 1 ≡ suc k = omega arith in rw next refl

pub chunks_from_none :
    (id : String) (total total_bytes : ℕ) (serialized : Units) (k : ℕ)
    → chunks_from id total total_bytes serialized sync_chunk_chars k 0 ≡ []
unfolding chunks_from
chunks_from_none id total total_bytes serialized k = refl

-- A run of chunks completes one text, and leaves these entries.
abbrev pub Received :
    (Units → ℕ) → List Chunk → JsMap PendingChunks → JsMap PendingChunks → Units → Type 0
Received utf8_length cs before after serialized =
    ((accept_all utf8_length cs before).0 ≡ after)
    × (completed (accept_all utf8_length cs before).1 ≡ serialized ∷ [])

module _ (utf8_length : Units → ℕ) (c : Chunk) (cs : List Chunk)
    (before next after : JsMap PendingChunks) (serialized : Units) where
  pub receive_more :
      accept_sync_envelope_chunk utf8_length c before ≡ (next, none)
      → Received utf8_length cs next after serialized
      → Received utf8_length (c ∷ cs) before after serialized
  unfolding accept_all
  receive_more e h = rw e h

  pub receive_last :
      cs ≡ []
      → accept_sync_envelope_chunk utf8_length c before ≡ (after, some serialized)
      → Received utf8_length (c ∷ cs) before after serialized
  unfolding accept_all
  receive_last none_left e = rw (none_left, e) (refl, refl)
