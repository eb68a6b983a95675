-- ===== src/Format.antt =====
-- The conversions of `sprintf` and `sscanf` that the daemon uses, on texts as lists of byte codes
-- (the terminating NUL is the end of the list): `%0kX`, `%0kd`, `%X`,
-- `%d` and `%ld`.
mod Chars
mod Hex
mod Decimal
mod Long
unfoldable pub use Chars.*
unfoldable pub use Hex.*
unfoldable pub use Decimal.*
unfoldable pub use Long.*
