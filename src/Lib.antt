-- ===== src/Lib.antt =====
-- GNU Interactive Tools (gnuit): the input line, the panels' cursor, selection, search, order and
-- file operations, the keys, the configuration file, the user's commands, the status line, the file
-- viewer, the process viewer, and the helpers that these use, from the C sources in src/. A key
-- that `tty_get_key` gives is dispatched to the input line or to a panel; a command that a key is
-- bound to in the configuration file is written out over the panels' selection.
--
-- Parts, and the files that model them:
-- src/inputline.c, the input line: InputLine.antt has the record `input_line_t` and the memory
-- operations; InputLine/Move, Edit, Kill and Words have its editing functions, each under its own
-- name, and InputLine/Dispatch the switch `il_dispatch_commands` of src/git.c that calls them.
-- InputLine/Line is the abstract view: a prompt, the text on both sides of the point, and the kill
-- ring. InputLine/Valid says when an input line has its shape, and which line it shows, and
-- InputLine/Display what is drawn of it; InputLine/HistoryKeys has `il_history`, on a history
-- library that is a parameter. The other files of InputLine have the proofs, each named for what it
-- is about.
-- src/panel.c, the panels: Panel.antt has the record, Panel/Cursor the moves of `panel_action` and
-- what of the list is on the screen, Panel/Selection the selection with its count and the iterator.
-- Panel/Isearch has the incremental search with the stack of its steps, Panel/Sort the order of the
-- entries, `sort_compare_fn`. Transfer.antt has `panel_copy`, Transfer/Move `panel_move`,
-- Transfer/Compare `panel_compare` and what is said of its result, and Transfer/Find the search for
-- an entry by its name.
--   src/configure.c, the configuration file: Configure.antt has the reader of lines, sections and
--   variables on the text of the file, Configure/Lines what the file means line by line, and
--   Configure/Settings the functions of src/misc.c that the programs read it with.
-- src/git.c: Command.antt has `command_expand`, which writes out the user's commands, with its
-- steps in Command/Steps; DirHistory.antt has the history of directories.
--   src/xstack.c: Stack.antt; Stack/History has the histories that src/git.c keeps on such stacks.
-- src/window.c: Window.antt. src/misc.c: Misc/Text and Misc/Path, with Misc/Components for what the
-- names of a path mean. src/tty.c: Keys.antt, the list of key sequences, Keys/Search the search in
-- it, and Keys/Reading the keys that the terminal sends.
-- src/status.c: Status.antt, the message of the status line. src/gitview.c: Gitview.antt, the moves
-- in the file and the offset that is typed. src/gitps.c: Gitps.antt, the moves in the list of
-- processes, the signal and the changes of the screen's size, and Gitps/Pid the process number that
-- is read from a line of ps. Wide.antt is the memory of wide characters that the C library's
-- functions work on. The locale is a record of functions, with the laws that the code relies on:
-- NUL is not printable, and a change of case makes no NUL of another character. Prelude.antt passes
-- on the library's names.
--
-- How state is modelled: a function that works on the global `il`, or on a panel, takes the record
-- and returns it. A block of memory is a function from indices, its size beside it; what lies
-- behind its end is arbitrary. The field `overrun` of an input line is not in the source: it
-- records an access outside the buffer. A failed assertion and a fatal error are `none`. Unsigned
-- arithmetic that can wrap is written out, modulo 2^64. A buffer has at most 2^62 cells, so that
-- its bytes can be counted.
--
-- Fuel: `il_delete_horizontal_space` has loops that need not end, and takes a number of rounds;
-- more rounds than the line has characters are enough where the loops end at all. `minimize_path`
-- takes as many rounds as the path has characters, since each round reads one. So do the loops on
-- the configuration file, whose rounds read a character of it at least, and `command_expand`, whose
-- rounds and inner calls read a character of the command at least: one round more than there are
-- characters is enough. The loop of `panel_copy` takes one turn for each buffer of the file and two
-- more, that of `panel_compare` one turn for each byte and one more. What the system answers in a
-- loop, and whether the user cancels, is a sequence of turns. A loop that waits for a key takes one
-- round more than there are reads to come.
--
-- Not modelled: what is drawn of the panels, the terminal's capabilities, system calls and the
-- memory allocator; src/history.c and src/tilde.c, which are copies of other libraries; the
-- programs gitwipe, gitkeys and gitwhich, and the main loop of src/git.c; copies and moves of
-- directories, which cp and mv do; of gitview and gitps what is drawn, their options, and the call
-- of ps.
pub mod Command
pub mod Configure
pub mod DirHistory
pub mod Gitps
pub mod Gitview
pub mod InputLine
pub mod Keys
pub mod Misc
pub mod Panel
pub mod Prelude
pub mod Stack
pub mod Status
pub mod Transfer
pub mod Wide
pub mod Window
