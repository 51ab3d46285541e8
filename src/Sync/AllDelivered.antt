-- ===== src/Sync/AllDelivered.antt =====
-- A flush in time with a server that takes every change.
