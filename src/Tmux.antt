-- ===== src/Tmux.antt =====
-- Package tmuxx: quoting for tmux command lines and the names that tmux stores.
pub mod Quote
pub mod Window
