-- ===== src/Common.antt =====
-- Names that every module of the development shares: the libraries' data types, passed on, Boolean
-- tests on the native numbers, and case splits that keep the equation.
pub mod Eq
pub mod Lists
pub mod Tests
