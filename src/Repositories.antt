-- ===== src/Repositories.antt =====
-- adapters/repositories_write.py and adapters/repositories_read.py.
pub mod Tables
pub mod Write
pub mod Read
pub mod Search
