-- ===== src/Manager/Cursors.antt =====
-- The cursors of the envelopes that server/manager.ts builds.
use sync_resource.Shared.{ℕ, ◌+◌, String, ◌≡◌, ◌⊎◌, true, Option, none, some}
use sync_resource.Js.{is_set}
use sync_resource.Protocol.{SyncEnvelope}
use sync_resource.Manager.{MethodKind, is_write_method_kind}

-- How an envelope and the index of cursors belong together.
abbrev pub Takes : (ℕ → String) → MethodKind → ℕ → Option SyncEnvelope × ℕ → Type 0
Takes next_cursor method index (none, after) = after ≡ index
Takes next_cursor method index (some e, after) =
    ((after ≡ index) × (is_set (some e.cursor) ≡ true))
    ⊎ ((after ≡ index) × (is_write_method_kind method ≡ true))
    ⊎ ((after ≡ index + 1) × (e.cursor ≡ next_cursor after) × (is_write_method_kind method ≡ true))
