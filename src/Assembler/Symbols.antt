-- ===== src/Assembler/Symbols.antt =====
-- The symbol table of project-2/prj2/Assembly/assemble32.c: a linked list, the newest symbol first.
-- `malloc` and `strdup` succeed.
use da_bus.Base.{ℕ, Option, none, some, List, [], ◌∷◌, if◌then◌else◌}
use da_bus.Assembler.{same}

pub record Symbol : Type 0 where
  pub value : ℕ
  pub name : List ℕ

unfoldable pub symbol_lookup : List ℕ → List Symbol → Option Symbol
unfolding same
symbol_lookup name [] = none
symbol_lookup name (s ∷ rest) =
    let more = symbol_lookup name rest in if same s.name name then some s else more

-- `none` is the return value 0, for a duplicate.
unfoldable pub symbol_insert : List ℕ → ℕ → List Symbol → Option (List Symbol)
unfolding symbol_lookup
symbol_insert name value table = elim (symbol_lookup name table) [
  | some _ ↦ none
  | none ↦ some (record { value = value; name = name } ∷ table)
]
