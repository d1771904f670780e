-- ===== src/Runtime.antt =====
-- What the program takes from Solana: program-derived addresses, system calls on accounts, and the
-- account table they act on. None of it is under the repository, so it enters as parameters.
pub mod Address
pub mod Accounts
