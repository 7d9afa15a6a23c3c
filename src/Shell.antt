-- ===== src/Shell.antt =====
-- lab2: the parts of the shell that work on the command line: lab2/src/command.c and lab2/src/builtin.c.
pub mod Command
pub mod Builtin
pub mod SplitLaws
pub mod HistoryLaws
pub mod Process
mod Examples
