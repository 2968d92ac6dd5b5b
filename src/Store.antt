-- ===== src/Store.antt =====
-- The database of the server: the tables that the services read and write, and the queries that they
-- make. A table is its list of rows, in the order in which they were created. The columns and unique
-- keys are those of packages/db/prisma/schema.prisma; columns that no modelled code reads are left
-- out (most of them hold a time), and a `bigint` column is an integer with no bound.
pub mod Tables
pub mod Tx
pub mod Invariant
pub mod Queries
pub mod Runs
pub mod Service
pub mod Sound
pub mod Statements
