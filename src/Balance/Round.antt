-- ===== src/Balance/Round.antt =====
-- How a worker of src/scheduler_mn.c finds its next thread.
