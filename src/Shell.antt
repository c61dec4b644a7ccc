-- ===== src/Shell.antt =====
-- The command shell of shell/shell.c: the line editor, the arguments of a command line, the
-- registered commands, and the state machine that shell_interactive steps.
pub mod Line
pub mod Args
pub mod Commands
pub mod Machine
pub mod Script
