-- ===== src/Next/Motion.antt =====
-- motion.js: the sidebar's motion, and the integrator that runs the motions of a page in turn.
pub mod Lines
pub mod Sidebar
pub mod Integrator
