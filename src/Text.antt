-- ===== src/Text.antt =====
-- Go's strings: sequences of bytes. UTF-8 decoding is in Text.Utf8, white space in Text.Space, case in Text.Case,
-- `path.Match` in Text.Glob,
-- numbers in decimal notation in Text.Decimal, their laws in Text.DecimalLaws.
mod Bytes
mod Utf8
mod Space
mod Case
mod Glob
mod Decimal
pub mod DecimalLaws
unfoldable pub use Bytes.*
unfoldable pub use Utf8.*
unfoldable pub use Space.*
unfoldable pub use Case.*
unfoldable pub use Glob.*
unfoldable pub use Decimal.*
