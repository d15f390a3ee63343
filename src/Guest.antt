-- ===== src/Guest.antt =====
-- The guest's side, guest/9pfuse: the manager of mapped files, the cache of attributes, and the 9p
-- client.
pub mod Mmap
pub mod AttrCache
pub mod Client
pub mod Fuse
