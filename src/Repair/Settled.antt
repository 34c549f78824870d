-- ===== src/Repair/Settled.antt =====
-- The results that client/repair.ts has given stay as they are.
use sync_resource.Shared.{ℕ, ◌≡◌, some, get_elem?}
use sync_resource.Repair.{RepairResult, Scheduler}

-- A promise that has settled, and with what.
abbrev pub Settled : ℕ → RepairResult → Scheduler → Type 0
Settled id r s = get_elem? s.promises id ≡ some (some r)
