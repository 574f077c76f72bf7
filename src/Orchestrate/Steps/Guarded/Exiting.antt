-- ===== src/Orchestrate/Steps/Guarded/Exiting.antt =====
-- The acts of the step `thaw+exit` are guarded.
