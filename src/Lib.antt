-- ===== src/Lib.antt =====
-- The core of stonesh, a login shell that lets its users go on to other hosts: its configuration, the
-- files of hosts and users, the authorization, and the command that it ends in.
--
-- How the parts work together. The program (stonesh.c) reads its options with `read_config_file`,
-- looks the host up with `gethostentry`, asks `auth_user` whether the user may go there, and
-- `is_from_valid_country` (geoip.c) whether the client's address is allowed, and then executes ssh or nc.
-- `auth_user` asks the users file (`get_auth_file`) or an LDAP server (`get_auth_ldap`). All of them
-- read text line by line with `fgets` and clean it with `trim`.
--
-- * Util models util.c: `trim`, `strtoupper` and `strtolower`, as functions of the string.
-- * Readconf models readconf.c and readconf.h: Readconf/Options has the structure and its life,
--   Readconf/Keywords the table and `parse_token`, Readconf/Delim `strdelim`, Readconf/Line
--   `process_config_line`, and Readconf/File `read_config_file`. The labels of the switch are
--   functions of their own, in the order of the code.
--   Readconf/Session has both once more, with their messages, files and strings, on the state of
--   Streams. Readconf/Directives has a specification of the file as a list of directives.
-- * Hosts models hosts.c, AuthLocal auth_local.c, and Auth auth.c. Hosts/Table and AuthLocal/Table have
--   specifications of the files of hosts and users as tables. Hosts/Session, AuthLocal/Session and
--   Auth/Session have the functions once more, with their messages, files and strings, on the state
--   of Streams.
-- * AuthLdap models auth_ldap.c: the decision and the filters, and AuthLdap/Session the calls that take
--   and give back memory, messages and the connection. AuthLdap/Report has its
--   messages, and the strings that it copies and frees.
-- * Log models log.c, and the signal handler of stonesh.c. Its state is what was written.
-- * Geoip models geoip.c.
-- * Stonesh models `main` of stonesh.c from the user's name to the arguments of `execvp`: Stonesh/Startup
--   has the environment and the options of the command line, Stonesh/Parsing the request and the
--   prompt, Stonesh/Command the command and its text, Stonesh the rest, and Stonesh/Texts what
--   `version` and `usage` print. Stonesh/Tables composes the specifications of the three files into one
--   of a request. Stonesh/Process has `main` once more, on the process as state, with the messages and
--   the release of memory: Process/Launch its start, Process/Serve the rest up to `execvp`, and
--   Process/Finish what comes of that.
-- * Libc has what these use of the C library, and Prelude lists, numbers and faults.
--
-- A string is the list of its bytes in front of the NUL, and a pointer to one is an `Option`, where
-- `none` is NULL. What a function changes in place is a part of its result: the options, the static
-- host entry, and the arguments of `get_auth_file`. The file system is a function from names to
-- contents. Reads through NULL, uses of what was not initialized and `free` of what was not
-- allocated are a fault, a result of its own. A line is what `fgets` stores: at most 1023
-- bytes up to and with a newline.
--
-- Fuel: `read_loop` and `strtok_loop` of Libc take the length of their text as fuel. Each round takes
-- at least one byte, so it is enough; Libc/Lines and Libc/Fields are about them.
--
-- Tests runs the functions, Tests/Suite and Tests/Files on cases of the programs in test.
--
-- Not modelled: failing allocations, and when a signal comes. Stonesh/Process leaves the messages of the
-- functions that `main` calls out of its log. What `getopt`, `getpwuid` and `execvp` answer, the LDAP
-- library, the resolver and the GeoIP library are parameters, records of the answers that they give. The machine is
-- little-endian with 8 bytes to a pointer, and `%s` prints NULL as the GNU library does.
pub mod Prelude
pub mod Libc
pub mod Util
pub mod Readconf
pub mod Hosts
pub mod AuthLocal
pub mod AuthLdap
pub mod Auth
pub mod Log
pub mod Streams
pub mod Geoip
pub mod Stonesh
pub mod Tests
