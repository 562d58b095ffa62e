-- ===== src/Edit.antt =====
-- internal/application/edit.go: the changes that the screens make to a configuration file.
pub mod Build
pub mod Lines
pub mod Fields
pub mod Header
pub mod Rename
