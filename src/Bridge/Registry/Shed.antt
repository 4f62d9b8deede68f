-- ===== src/Bridge/Registry/Shed.antt =====
-- The loop of `check_memory_pressure` ends: it stops when the heap is above the reserve, or no
-- identity is left.
