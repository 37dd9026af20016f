-- ===== src/Msg.antt =====
-- pkg/msg: the report of a check and the comments that carry it.
pub mod Store
pub mod Runes
pub mod Markdown
pub mod Split
pub mod Chunks
pub mod Sections
pub mod Comment
