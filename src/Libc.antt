-- ===== src/Libc.antt =====
-- What the program uses of the C library, as functions of byte strings: character classes
-- (Ctype), strings (Text), `fgets` on the bytes of a file (Stdio) and formatted output (Printf).
mod Ctype
mod Text
mod Stdio
mod Printf
pub mod Fields
pub mod Lines
pub mod Rows
unfoldable pub use Ctype.{is_space, tolower, toupper}
unfoldable pub use Text.{
  c_str, strncmp, strncasecmp, strcasecmp, one_of, strpbrk, strsep, strtok, strtok_loop, strtok_all,
  atoi_pos,
}
unfoldable pub use Stdio.{get_line, fgets, read_loop, read_lines}
pub use Printf.{Place, plain, percent, precision}
unfoldable pub use Printf.{format_from, format, snprintf, decimal}
