-- ===== src/Tui.antt =====
-- The text grid of the terminal interface (tui/layout.py).
pub mod Text
pub mod Row
pub mod Fit
pub mod Wrap
mod Samples
