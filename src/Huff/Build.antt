-- ===== src/Huff/Build.antt =====
-- 01DataStruct/08Huffman/huff.c: how the tree is built.
pub mod Lists
pub mod Forest
pub mod Tree
