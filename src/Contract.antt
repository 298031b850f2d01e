-- ===== src/Contract.antt =====
-- tools/nobytes_cca/contract.py: verdicts, facts and history.
pub mod Terms
pub mod Verdict
pub mod Bundle
pub mod Evidence
pub mod Guards
