-- ===== src/Text.antt =====
-- Texts as lists of code points, and regular expressions over them (Python's `str` and `re`).
mod Codes
mod Patterns
pub mod Match
mod Tests
unfoldable pub use Codes.*
unfoldable pub use Patterns.*
