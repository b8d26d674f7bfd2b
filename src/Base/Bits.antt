-- ===== src/Base/Bits.antt =====
-- Laws of `&`, `|` and `^` at variables: bit by bit, and by fields for the masks of the program.
pub mod Step
pub mod Digit
pub mod Field
pub mod Scan
