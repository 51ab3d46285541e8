-- ===== src/Article.antt =====
-- rust-core/src/article.rs: preview text and first image of an article.
--
-- The tree that html5ever parses is a data type; the parser and the URL package are arguments.
pub mod Dom
pub mod Extract
pub mod TextLaws
pub mod ImageLaws
mod Tests
