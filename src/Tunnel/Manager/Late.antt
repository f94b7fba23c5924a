-- ===== src/Tunnel/Manager/Late.antt =====
-- A round of the poller around a disconnect.
