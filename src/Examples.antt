-- ===== src/Examples.antt =====
-- The theorems at concrete inputs.
pub mod Money
pub mod Loans
pub mod Repaid
pub mod Journals
pub mod Flow
pub mod Lending
pub mod Payoffs
pub mod Started
pub mod Tree
pub mod Correcting
pub mod Counting
pub mod Deposits
pub mod Waiting
