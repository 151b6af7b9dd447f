-- ===== src/Sfs.antt =====
-- kern/fs/sfs/sfs_io.c and the block allocation of kern/fs/sfs/sfs_vnode.c: an inode maps the blocks
-- of a file to blocks of the disk, fifteen directly and 128 through an indirect block.
pub mod Device
pub mod State
pub mod Block
pub mod Bmap
pub mod Io
pub mod File
pub mod Tests
