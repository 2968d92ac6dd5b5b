-- ===== src/Store/Invariant.antt =====
-- A condition on the database that a transaction, or a sequence of statements, keeps. What keeps it is
-- shown in the words of the program: the proof for a `do` block is a `do` block of the proofs for
-- its steps.
pub mod InTx
pub mod Holds
