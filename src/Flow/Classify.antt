-- ===== src/Flow/Classify.antt =====
-- Classification of a page by its form fields (src/flow/classify.rs): one pass over the page's tokens
-- collects its forms, controls, labels and device tiles, and the page's kind is read off the result.
pub mod Label
pub mod Scan
pub mod Kind
