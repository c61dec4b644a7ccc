-- ===== src/Storage/Script/Install.antt =====
-- The boot runs the commands that storage_init_add of dev/storage-init.c has put into the script.
use wrpc_sw.Prelude.{ℕ, List, [], ◌∷◌, ◌++◌}
use wrpc_sw.Shell.Commands.{Shell}
use wrpc_sw.Storage.Script.{Area, storage_init_add}

-- A command: its first word and the others. As a line it has one space between two words.
abbrev pub Words : Type 0
Words = List ℕ × List (List ℕ)

abbrev pub joined : List ℕ → List (List ℕ) → List ℕ
joined arg [] = arg
joined arg (next ∷ args) = arg ++ (b' ' ∷ joined next args)

abbrev pub lines_of : List Words → List (List ℕ)
lines_of [] = []
lines_of ((arg, args) ∷ cmds) = joined arg args ∷ lines_of cmds

module _ (fs : Area) where
  -- The commands added one after the other.
  abbrev pub add_all : List Words → fs.Store → fs.Store
  add_all [] s = s
  add_all ((arg, args) ∷ cmds) s = add_all cmds (storage_init_add fs (arg ∷ args) s).1
