-- ===== src/Outbox/Replay.antt =====
-- What the outbox of server/manager.ts answers after any run of its operations.
use native.Mathlib.Nat.{zero-mod}
use sync_resource.Shared.{
  ℕ, ◌-◌, ◌%◌, ◌≤◌, ◌<◌, String, ◌≡◌, refl, sym, ap, ◌∙◌, ◌||◌, Option, none, some, List, [], arith,
  inl, inr, length, get_last?, take, drop, leb, Bool-cases, Option-cases, ◌==◌, map,
}
use sync_resource.Protocol.{SyncEnvelope}
use sync_resource.Outbox.{
  ScopeLog, Outbox, slot, newest_cursor, latest_cursor, replay_start, collect_from, read_log,
  read_after, new_outbox,
}
use sync_resource.Outbox.Ring.{Finds, find_sequence-Finds, collect_from-drop}
use sync_resource.Outbox.Refinement.{
  History, since, read_history, last_cursor, Op, run, histories, no_history, log_of, LogRefines,
}
use sync_resource.Outbox.Runs.{
  get_last?-none, get_last?-some, new_outbox-Refines, origin-new_outbox, origin-run, run-Refines,
}

module _ (cap : ℕ) (log : ScopeLog) (h : History) (some_room : 0 < cap)
    (r : LogRefines cap log h) where
  replay_start-Finds :
      (origin cursor : String)
      → Finds h.envelopes
          (log.next - cap)
          (since cap origin h cursor)
          (replay_start cap origin log cursor)
  unfolding replay_start since
  replay_start-Finds origin cursor =
      let first : ℕ = log.next - cap in
      let counted : length h.envelopes ≡ log.next = sym r.agrees.counted in
      elim (Bool-cases (cursor == origin)) [
        | inl start ↦ elim (Bool-cases (h.trimmed || leb cap (length h.envelopes))) [
          | inl lost ↦ rw (start, r.same_flag, r.agrees.counted, lost) tt
          | inr whole ↦
              rw (start, r.same_flag, r.agrees.counted, whole) (refl, ground arith, omega arith)
        ]
        | inr other ↦
            rw (other, counted)
              (find_sequence-Finds cap log h.envelopes r.agrees cursor (log.next - first) first
                first (omega (arith, r.agrees.counted)) (omega (arith, r.agrees.counted))
                (omega arith))
      ]

  collected :
      (limit start : ℕ)
      → log.next - cap ≤ start
      → start ≤ length h.envelopes
      → collect_from cap log.ring limit (log.next - start) start []
        ≡ map some (take limit (drop start h.envelopes))
  collected limit start from within =
      collect_from-drop cap log h.envelopes r.agrees limit (log.next - start) start []
        (omega (arith, r.agrees.counted)) (omega (arith, r.agrees.counted))
      ∙ ap (λ (n : ℕ). map some (take n (drop start h.envelopes))) (omega arith)

  newest_cursor-last_cursor :
      (origin : String) → newest_cursor cap origin log ≡ last_cursor origin h
  unfolding newest_cursor last_cursor
  newest_cursor-last_cursor origin = elim (Option-cases (get_last? h.envelopes)) [
    | inl gone ↦
        let none_there = get_last?-none h.envelopes gone in
        let newest : (log.next - 1) % cap ≡ 0 =
          ap (λ (n : ℕ). n % cap) (omega (arith, r.agrees.counted)) ∙ zero-mod cap in
        let hole : slot log.ring ((log.next - 1) % cap) ≡ none =
          ap (slot log.ring) newest ∙ r.agrees.unused none_there in
        rw (newest_cursor, last_cursor, gone, hole) refl
    | inr (e, last) ↦
        let (found, some_there) = get_last?-some h.envelopes e last in
        let i : ℕ = length h.envelopes - 1 in
        let newest : log.next - 1 ≡ i = omega (arith, r.agrees.counted) in
        let here : slot log.ring ((log.next - 1) % cap) ≡ some e =
          ap (λ (k : ℕ). slot log.ring (k % cap)) newest
          ∙ r.agrees.slots i (omega arith) (omega arith)
          ∙ found in
        rw (newest_cursor, last_cursor, last, here) refl
  ]

Finds-none :
    (history : List SyncEnvelope) (first : ℕ) (rest : Option (List SyncEnvelope))
    → Finds history first rest none
    → rest ≡ none
Finds-none history first none h = refl
Finds-none history first (some rest) h = absurd h

Finds-some :
    (history : List SyncEnvelope) (first start : ℕ) (rest : Option (List SyncEnvelope))
    → Finds history first rest (some start)
    → (rest ≡ some (drop start history)) × (first ≤ start) × (start ≤ length history)
Finds-some history first start none h = absurd h
Finds-some history first start (some rest) h = (ap some h.0, h.1, h.2)

read_log-read_history :
    (cap : ℕ) (log : ScopeLog) (h : History)
    → 0 < cap
    → LogRefines cap log h
    → (origin cursor : String) (limit : ℕ)
    → read_log cap origin log cursor limit ≡ read_history cap origin h cursor limit
unfolding read_log read_history
read_log-read_history cap log h some_room r origin cursor limit =
    let finds = replay_start-Finds cap log h some_room r origin cursor in
    elim (Option-cases (replay_start cap origin log cursor)) [
      | inl lost ↦
          let gone =
            Finds-none h.envelopes (log.next - cap) (since cap origin h cursor)
              (rw lost at finds) in
          rw (read_log, read_history, lost, gone, r.agrees.counted) refl
      | inr (start, found) ↦
          let (rest, from, within) =
            Finds-some h.envelopes (log.next - cap) start (since cap origin h cursor)
              (rw found at finds) in
          rw
            (
              read_log,
              read_history,
              found,
              rest,
              collected cap log h some_room r limit start from within,
              r.agrees.counted,
            )
            refl
    ]

-- After any appends and prunings the outbox answers a read as the plain lists do: a read after a
-- cursor that is still kept brings every envelope of the scope that was appended after it, in order
-- up to the limit, none of them a hole of the ring. A read after the origin brings
-- the whole history, while it is shorter than the ring and was not cut. Any other cursor is reported
-- as not found. The count that is reported is that of the envelopes kept. The ring has some room.
pub read_after-run :
    (origin : String) (cap : ℕ) (ops : List Op) (scope cursor : String) (limit : ℕ)
    → 0 < cap
    → read_after (run (new_outbox origin cap) ops) scope cursor limit
      ≡ read_history cap origin (histories no_history ops scope) cursor limit
unfolding read_after
read_after-run origin cap ops scope cursor limit some_room =
    let o : Outbox = run (new_outbox origin cap) ops in
    let r =
      run-Refines cap ops (new_outbox origin cap) no_history some_room
        (new_outbox-Refines origin cap) in
    let named : o.origin ≡ origin =
      origin-run ops (new_outbox origin cap) ∙ origin-new_outbox origin cap in
    ap (λ (m : ℕ). read_log m o.origin (log_of scope o) cursor limit) r.room
    ∙ ap (λ (s : String). read_log cap s (log_of scope o) cursor limit) named
    ∙ read_log-read_history cap (log_of scope o) (histories no_history ops scope) some_room
        (r.logs scope) origin cursor limit

latest_cursor-newest_cursor :
    (o : Outbox) (scope : String)
    → latest_cursor o scope ≡ newest_cursor o.max_envelopes_per_scope o.origin (log_of scope o)
unfolding latest_cursor newest_cursor slot
latest_cursor-newest_cursor o scope = ground arith

-- After any appends and prunings the latest cursor of a scope is that of the envelope that was
-- appended last for it, or the origin if there is none. The ring has
-- some room.
pub latest_cursor-run :
    (origin : String) (cap : ℕ) (ops : List Op) (scope : String)
    → 0 < cap
    → latest_cursor (run (new_outbox origin cap) ops) scope
      ≡ last_cursor origin (histories no_history ops scope)
latest_cursor-run origin cap ops scope some_room =
    let o : Outbox = run (new_outbox origin cap) ops in
    let r =
      run-Refines cap ops (new_outbox origin cap) no_history some_room
        (new_outbox-Refines origin cap) in
    let named : o.origin ≡ origin =
      origin-run ops (new_outbox origin cap) ∙ origin-new_outbox origin cap in
    latest_cursor-newest_cursor o scope
    ∙ ap (λ (m : ℕ). newest_cursor m o.origin (log_of scope o)) r.room
    ∙ ap (λ (s : String). newest_cursor cap s (log_of scope o)) named
    ∙ newest_cursor-last_cursor cap (log_of scope o) (histories no_history ops scope) some_room
        (r.logs scope) origin
