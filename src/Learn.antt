-- ===== src/Learn.antt =====
-- The texts that teach: the glossary with the terms that link to it, and the chapters.
pub mod Entries
pub mod Glossary
pub mod Chapters
pub mod Links
mod Tests
