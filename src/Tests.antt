-- ===== src/Tests.antt =====
-- Runs of the program's functions on concrete input, and instances of the theorems.
mod Samples
mod Config
mod Directives
mod Words
mod Access
mod Users
mod Entries
mod Logins
mod Messages
mod Program
mod Processes
mod Suite
mod Files
mod Accounts
