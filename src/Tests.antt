-- ===== src/Tests.antt =====
-- The theorems applied at concrete inputs.
mod Log
mod Caches
mod Clauses
mod Parsing
mod Lexing
mod Tables
mod Stores
mod Catalogs
mod Engines
