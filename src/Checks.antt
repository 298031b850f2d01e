-- ===== src/Checks.antt =====
-- tools/nobytes_cca/checks: the evaluators. Each is a function of a bundle, the check's parameters and
-- the history, which returns a result or raises.
pub mod OsSupport
pub mod OsState
pub mod AppSupport
pub mod Office
pub mod AppControl
pub mod AppControlPaths
pub mod Browsers
pub mod WellFormed
pub mod Evaluators
