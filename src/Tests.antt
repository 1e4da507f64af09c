-- ===== src/Tests.antt =====
-- Runs of the definitions at concrete inputs, and each theorem with hypotheses at an input that
-- meets them.
mod Lists
mod Requests
mod Starts
mod Sizes
mod Bytes
mod Tree
mod Heap
mod Payloads
mod Joins
mod Ranges
mod Emulation
mod Timing
mod Traces
mod Lines
mod Replays
mod Suites
