-- ===== src/Persistence.antt =====
-- Support/Persistence and Support/FilePersistence: where records are kept. Interface is the abstract
-- class, Stream the ring buffer, Book the class NonPersistence over it, and File the class
-- FilePersistence, with Filename for its file names.
pub mod Interface
pub mod Stream
pub mod Book
pub mod Filename
pub mod File
