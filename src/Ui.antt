-- ===== src/Ui.antt =====
-- State and presentation that pages share.
pub mod Copying
pub mod Store
