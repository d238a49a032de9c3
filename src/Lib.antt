-- ===== src/Lib.antt =====
-- The command interpreter of mksh, a router-style shell for builds.
--
-- A command is declared with a specification, one line such as `show (version|A.B.C.D)`, and a
-- handler. command.c turns specifications into tables, splits a typed line into words, compares the
-- words with the tables, completes and describes what is typed, and calls the handler. The tables
-- and the split lines are vectors of vector.c; linklist.c has linked lists, and thread.c a scheduler of
-- timers, events and descriptors. The handlers check their arguments with utils.c.
--
-- Cstr.antt: C strings as lists of bytes, and what the program uses of the C library on them, in the
-- "C" locale.
--
-- Vector.antt: vector.c and vector.h. `Vector` is `struct _vector`, with the array as a list whose
-- length is the allocated size; `none` in a slot is NULL. An operation is `none` where the code would
-- touch memory outside the array or loop for ever. `vector_ensure` is a recursion on 33 rounds of
-- fuel, and an array of at least one slot holds every index below 2 ^ 31 after 31 doublings.
--   Vector/Ensure.antt is about growing, Vector/View.antt about what `vector_lookup` answers behind a
--   store, Vector/Empty.antt about free slots, Vector/Unset.antt about clearing, Vector/Dense.antt about
--   vectors without gaps, which are lists, and Vector/Count.antt about counts and copies.
--
-- Match.antt and the files under it: the matchers of command.c, a word against a form: `A.B.C.D` and
-- `A.B.C.D/M` (Match/Ipv4.antt), `X:X::X:X` (Match/Ipv6.antt), `X:X::X:X/M` (Match/Ipv6Prefix.antt), and
-- `<lo-hi>` (Match/Range.antt). `unsigned long` has 64 bits, and its wrap-around is written out.
--   Match/Ipv4/Quad.antt, Match/Ipv4/Slash.antt and Match/Range/Decimal.antt hold the theorems.
--
-- Command/Element.antt: `struct desc` and `struct cmd_element` of command.h, and its macros on words.
-- Command/Strvec.antt: the splitting of lines, `cmd_make_strvec_old` and `cmd_make_strvec`. Each round
-- of the loop takes a character, so a round for each character and one more are enough fuel.
--   Command/Strvec/Words.antt defines the words of a line, Command/Strvec/Join.antt the line of words,
--   and Command/Strvec/Quotes.antt what becomes of its quotes.
-- Command/Descvec.antt: the parser of specifications, `cmd_make_descvec`, with `cmd_cmdsize` and the
-- installation of an element. Its fuel is also the length of the text and one.
--   Command/Descvec/Ends.antt is about its end, Command/Descvec/Install.antt about installed commands.
-- Command/Filter.antt: `cmd_filter_by_completion`, `cmd_filter_by_string` and `is_cmd_ambiguous`. They
-- clear slots of a copy of a node's table, which is a list of slots here. A read outside a command's
-- vector is the answer `fault`. Command/Filter/Keeps.antt is about what the filters leave, and
-- Command/Filter/Ambiguous.antt and Command/Filter/Sift.antt about the test for ambiguity.
-- Command/Execute.antt: `cmd_execute_command` and `cmd_execute_command_strict`, up to the handler's call,
-- which is a value of `Outcome`. A read outside a vector is the outcome `crash`.
--   Command/Execute/Walk.antt is about the loop over the words, Command/Execute/Choice.antt about the
--   count of the commands that are left and the arguments, and Command/Execute/Sound.antt puts them
--   together. Command/Filter/Vararg.antt, Command/Execute/Treat.antt, Command/Execute/Single.antt and
--   Command/Execute/Stops.antt follow a variable argument list through the filter, the arguments, the
--   count and the loop, for Command/Execute/Safe.antt.
-- Command/Complete.antt and Command/Describe.antt: `cmd_complete_command` and `cmd_describe_command`.
-- The strings and the descriptions are lists, since the vectors that collect them have no gaps.
--   Command/Complete/Lcd.antt, Command/Complete/Answers.antt, Command/Describe/Listing.antt and
--   Command/Describe/Answers.antt hold the theorems.
--
-- Nodes.antt: a heap of linked nodes and the commands on it. A command is `none` where the code would
-- follow NULL or the address of no node. Nodes/Chain.antt, Nodes/Link.antt and Nodes/Linked.antt relate
-- the heap to the sequence of the nodes of a list.
-- Linklist.antt: linklist.c and linklist.h, each function as a command. `struct list` is outside the
-- heap, and a function gives its new value. A loop over the nodes takes fuel, and one more than there
-- are nodes is enough. Linklist/Insert.antt and Linklist/Sort.antt are about `listnode_add_sort`,
-- Linklist/Delete.antt and Linklist/Find.antt about the deletions, and Linklist/After.antt about
-- `listnode_add_after`. The shell keeps its sections of configuration in such lists.
-- ThreadList.antt: the linked lists of thread.c in the same way; ThreadList/Moves.antt has the theorems.
-- Timeval.antt: the times of thread.c; Timeval/Adjust.antt is about `timeval_adjust`. The fuel of its loops
-- is the number of seconds in the microseconds, and one or two more.
-- Thread.antt, Thread/Release.antt and Thread/Schedule.antt: the scheduler of thread.c, where a list is
-- the sequence of its threads: what adds a thread, what takes one out of use, and `thread_fetch`, with a
-- list of rounds for the clock and the answers of `select`. A step is `none` where an assertion fails, a
-- thread would be in a list twice, a descriptor is FD_SETSIZE or more, or a member of the union is read
-- that was not written.
--   Thread/Valid.antt defines the well-formed states. Thread/Members.antt, Thread/Put.antt,
--   Thread/Clear.antt and Thread/Retire.antt are about a thread that moves from one list to another;
--   Thread/Cancel.antt, Thread/Purge.antt, Thread/Add.antt, Thread/Start.antt, Thread/Timer.antt,
--   Thread/Serve.antt, Thread/Process.antt, Thread/Look.antt, Thread/Fetch.antt and Thread/Rounds.antt
--   follow the functions, and Thread/Reach.antt puts them together.
--
-- Vtysh.antt: `vtysh_execute` of vtysh.c, a line that is entered, with the counter of wrong passwords;
-- Vtysh/Login.antt follows the counter. The check of a password is an argument.
-- VtyshConfig.antt: vtysh_config.c: the sections of the configuration with their lines, as sequences in the
-- slots of a vector, and the text that `config_dump` prints. VtyshConfig/Order.antt is about `strcmp`,
-- VtyshConfig/Lines.antt about the lines, and VtyshConfig/Sections.antt about `config_get`.
--
-- Utils.antt: `is_mac_valid`, `bad_ip_address` and `is_number` of utils.c.
-- Tests.antt: runs on a small table and uses of the theorems. Prelude.antt: shared names and lemmas.
--
-- The node's table is an argument of the operations that look it up in `cmdvec`. The copies, the
-- splits and the completions are values, so what frees them is not modelled; memory.c ends the
-- process when an allocation fails. `list_free` only gives memory back. Of thread.c the debug prints
-- and what measures a running thread (`thread_call`, `thread_should_yield`, `thread_execute`) are left
-- out: they print, read clocks and call a function pointer. Not modelled: the readline callbacks and
-- the files of vtysh.c, the handlers under cmd/, and what forks, reads
-- sockets or prints (parts of command.c and utils.c, vty.c, exception.c, ldsec_nlclient.c).
pub mod Prelude
pub mod Cstr
pub mod Vector
pub mod Match
pub mod Command
pub mod Nodes
pub mod Linklist
pub mod ThreadList
pub mod Timeval
pub mod Thread
pub mod VtyshConfig
pub mod Vtysh
pub mod Utils
pub mod Tests
