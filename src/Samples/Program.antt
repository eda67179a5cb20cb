-- ===== src/Samples/Program.antt =====
-- A test of the whole program: --run-once, with a configuration file.
