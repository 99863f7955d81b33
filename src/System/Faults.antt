-- ===== src/System/Faults.antt =====
-- Internal errors, over any history of the whole system.
