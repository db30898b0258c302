-- ===== src/Docs.antt =====
-- generator/doc_generator.h and generator/generate_docs.cpp: the protocol document and its diagram.
pub mod Text
pub mod Flow
pub mod Page
pub mod Dot
pub mod Tables
pub mod Document
