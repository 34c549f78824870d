-- ===== src/Protocol/Status.antt =====
-- The mapping of errors to HTTP statuses and back, in shared/protocol.ts.
