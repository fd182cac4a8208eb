-- ===== src/Readconf.antt =====
-- readconf.c: the options (Options), the words of a line (Delim), the keywords (Keywords), one line
-- of the file (Line), the whole file (File), and what is proved of each, below it.
pub mod Options
pub mod Delim
pub mod Keywords
pub mod Line
pub mod File
pub mod Directives
pub mod Session
