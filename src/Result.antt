-- ===== src/Result.antt =====
-- SyncResult of shared/result.ts. A SyncError is its code.
use sync_resource.Protocol.{SyncErrorCode}

pub data SyncResult {ℓ} (A : Type ℓ) : Type ℓ where
  ok : A → SyncResult A
  err : SyncErrorCode → SyncResult A
