-- ===== src/Net.antt =====
-- The network layer: net/buffer.hpp, and the timers of net/timer.hpp and net/eventloop.hpp.
pub mod Buffer
pub mod Timers
