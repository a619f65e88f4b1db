-- ===== src/Wire.antt =====
-- h_analyser.py and hdaemon.py together: what a value is on the other side of the socket.
pub mod Arguments
pub mod Responses
pub mod Calls
