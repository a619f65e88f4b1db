-- ===== src/Zmq.antt =====
-- The ZeroMQ tests, src/main/python/hydra/zmqtest.
pub mod Report
pub mod RunTest
pub mod Rerun
