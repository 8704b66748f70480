-- ===== src/Js.antt =====
-- What the source uses of JavaScript: texts, the numbers that a checked field may hold, decimal
-- texts of whole numbers, and big-endian bytes.
pub mod Text
pub mod Number
pub mod Value
