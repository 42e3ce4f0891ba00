-- ===== src/Sstable.antt =====
-- sstable.rs: the sorted tables on disk.
pub mod Record
pub mod Formats
pub mod Block
pub mod Index
pub mod Footer
pub mod Writer
pub mod Reader
pub mod BinarySearch
pub mod Lookup
