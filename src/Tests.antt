-- ===== src/Tests.antt =====
-- The theorems at concrete inputs: two sides with small buffers, and libraries that copy bytes and
-- match literal texts.
mod Toy
mod Sides
mod Handling
mod Proxying
mod Buffers
mod Serving
mod Whole
mod Starting
mod Logging
mod Piping
mod Remembering
mod Running
