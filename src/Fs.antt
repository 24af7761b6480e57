-- ===== src/Fs.antt =====
-- Project03-FileSystem: the file system of the third kernel.
pub mod Buffer
pub mod Log
pub mod Journal
pub mod Blocks
pub mod Inode
pub mod Bmap
pub mod Cache
pub mod Content
pub mod Path
pub mod Names
pub mod Run
pub mod Write
pub mod Calls
pub mod Entries
pub mod Links
pub mod Handles
pub mod Tests
pub mod Samples
pub mod Runs
