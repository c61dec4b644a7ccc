-- ===== src/Shell/Machine/Remote.antt =====
-- Command lines that another part of the program runs by shell_exec of shell/shell.c, as lib/snmp.c does.
use wrpc_sw.Prelude.{◌≤◌, ◌≡◌}
use wrpc_sw.Shell.Commands.{Shell}

module _ {W : Type 0} where
  -- A run leaves the cursor alone and does not lengthen the line.
  abbrev Still : Shell W → Shell W → Type 0
  Still s r = (r.line.cmd_pos ≡ s.line.cmd_pos) × (r.line.cmd_len ≤ s.line.cmd_len)
