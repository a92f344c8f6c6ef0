-- ===== src/Http.antt =====
-- src/luaw_http_parser.c and src/luaw_http_parser.h.
pub mod UrlDecode
pub mod Params
pub mod Queries
pub mod Parser
pub mod Reports
pub mod Url
pub mod Splits
pub mod Steps
pub mod Bytes
pub mod Equivalence
pub mod Stores
pub mod Offsets
