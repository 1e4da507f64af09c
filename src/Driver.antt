-- ===== src/Driver.antt =====
-- mdriver.c: the parts that judge an allocator on a trace. The allocator is a parameter.
pub mod Ranges
pub mod Payload
pub mod Replay
pub mod Usage
pub mod Speed
pub mod Trace
pub mod Tokens
pub mod Suite
