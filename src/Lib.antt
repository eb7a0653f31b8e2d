-- ===== src/Lib.antt =====
-- AuroraComms, a chat server over plain TCP, written in C.
--
-- The program is one thread and one loop. `main` (src/main.c) alternates between `ac_server_poll`
-- (src/net.c), which moves bytes between the sockets and the buffers of the clients, and
-- `ac_app_update` (src/app.c), which takes lines out of the input of the clients, runs the state
-- machine of each user on them (src/state.c) and appends to the output of clients. All containers are
-- the macros of inc/ac/meta.h: an array with its length and capacity in front of the elements, and a
-- hash map that is an array of buckets.
--
-- Files and code:
-- Base: lists, options and tests that all parts share. Base/Outcome has the values of a run: a
--   result, or a fault, which is an assertion that fails, an access out of bounds or to freed memory,
--   a division by zero, or a call of `exit`.
-- Arr: the array of inc/ac/meta.h, with its cells; `size_t` arithmetic is modulo 2 ^ 64.
--   Arr/Room, Arr/Insert and Arr/Remove relate it to lists.
-- Key, Entries, Map: the hash map of inc/ac/meta.h, for any hash function and equality of keys. The
--   bucket array is a list of buckets, live or freed, and its capacity a number of its own, since
--   growth sets only the capacity. A bucket is a list of its entries. Map/Layout and Map/Lookup say
--   when a map stands for a function from keys to values, Map/Find what a lookup finds; Map/Insert, Map/Regions, Map/Rehash, Map/Grow,
--   Map/Remove, Map/Assign, Map/Flatten and Map/Foreach are about the operations.
-- Str: src/str.c. Line: the input side of src/io.c. Literal: arrays from literals, with inc/ac/hex.h.
-- Fmt, Log: what `snprintf` leaves in a buffer and what is read back, and src/log.c.
-- Net: src/net.c and inc/ac/net.h, with `ac_server_poll` loop by loop in Net/Poll. What the operating
--   system answers is an argument (Fcntl, ListenOs, ConnOs, PollOs). Calls of `send` and `close` and the
--   log are a list of effects in the server.
-- App: inc/ac/app.h and the output functions of src/io.c. App/Screens has the texts of the states and
--   `ac_state_switch`, App/Command the commands of src/io.c, App/Update `ac_state_update` and
--   `ac_app_update`, App/Main the loop. The other files of App are about them. User objects stand in a
--   heap by their pointers, so that a read through the pointer to a freed user is a fault.
-- Tests: the theorems at concrete inputs.
--
-- Bounds and fuel: loops over an array or a string are recursion on its list, and loops with a
-- counter on the number of their rounds. The loop over the clients at the start of a poll changes
-- the map it walks over, so it has rounds: as many as the bucket had entries, which is enough since
-- the loop only removes. A number is printed with one more round than the number, and each round
-- divides it by ten. Nothing else is on fuel.
--
-- Not modelled: allocation failure, `setsockopt`, whose result the code ignores, and the split of what
-- arrives into pieces of 512 bytes, since each poll takes what one `recv` gives. The conversions
-- of `printf` are done before a text is printed; a `%.*s` prints the whole string, since names and
-- lines hold no NUL. Times are seconds since the epoch. An array counts cells: the number of
-- bytes that `realloc` is given is not modelled, nor that it could wrap around. The server model notes
-- what it logs, and does not end where the log file cannot be opened; Log does.
pub mod Base
pub mod Arr
pub mod Key
pub mod Entries
pub mod Map
pub mod Str
pub mod Line
pub mod Literal
pub mod Fmt
pub mod Log
pub mod Net
pub mod App
mod Tests
