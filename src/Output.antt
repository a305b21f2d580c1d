-- ===== src/Output.antt =====
-- output.go: cursors, the segmented output log and its readers.
pub mod Cursor
pub mod Log
pub mod Marks
pub mod Reader
pub mod Open
