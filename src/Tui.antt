-- ===== src/Tui.antt =====
-- crates/tui/src: the view state of the terminal interface.
pub mod App
