-- ===== src/Orm.antt =====
-- core/orm: the query builder, the SQL text that it writes and its pagination.
pub mod Marks
pub mod Ident
pub mod Rewrite
pub mod Model
pub mod Query
pub mod Select
pub mod Statements
pub mod Meta
pub mod Insert
pub mod Last
pub mod Prefetch
pub mod Paging
pub mod Tests
