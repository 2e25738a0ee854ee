-- ===== src/Filesystem.antt =====
-- filesystem/src: the simple file system sfs.c over the blocks of block.c.
pub mod Disk
pub mod Device
pub mod Reserve
pub mod Path
pub mod Directory
pub mod Requests
pub mod Keeps
pub mod Integrity
mod Tests
