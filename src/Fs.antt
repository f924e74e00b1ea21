-- ===== src/Fs.antt =====
-- kern/fs: files.
pub mod Bitmap
pub mod Iobuf
pub mod Vfs
pub mod Stdin
pub mod Inode
pub mod File
pub mod Files
pub mod Sfs
mod Tests
