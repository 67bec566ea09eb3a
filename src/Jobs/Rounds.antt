-- ===== src/Jobs/Rounds.antt =====
-- One round of the worker: a claim, a handler and the record of its end.
