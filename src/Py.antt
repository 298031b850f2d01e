-- ===== src/Py.antt =====
-- The part of Python's run time that the program uses: `str` methods, the values that JSON gives,
-- and the errors that reading them can raise.
pub mod Text
pub mod Glob
pub mod Value
pub mod Result
pub mod Access
pub mod Date
pub mod Dict
mod Tests
