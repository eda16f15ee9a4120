-- ===== src/Logger/Running.antt =====
-- `MLog` in any state that its callers and its thread bring it to.
