-- ===== src/Assembler/Addresses.antt =====
-- The symbol table of project-2/prj2/Assembly/assemble32.c gives each label the place of the next
-- word in the output.
use mathlib.Core.Option.{some_inj}
use da_bus.Base.{
  ℕ, ◌%◌, ◌^◌, ◌≡◌, refl, sym, ap, ◌∙◌, Bool, true, false, Option, none, some, List, [], ◌∷◌, ◌++◌,
  arith, if◌then◌else◌, Bool-cases, Option-cases, inl, inr, length,
}
use da_bus.Assembler.{same, Token, colon, text, duplicate_symbol, delimiter_at_beginning}
use da_bus.Assembler.Symbols.{Symbol, symbol_lookup, symbol_insert}
use da_bus.Assembler.Branches.{same→eq, append_empty}
use da_bus.Assembler.Passes.{
  is_delimiter, First, Second, count_opcode, labelled, add_label, first_statement, first_line,
  first_lines, first_pass, second_line, second_lines, second_pass,
}
use da_bus.Assembler.Labels.{Together, line-Together, statement-cases, snoc-ne}

same_self : (name : List ℕ) → same name name ≡ true
unfolding same
same_self [] = refl
same_self (c ∷ rest) = ground (arith, same_self rest)

-- What `symbol_insert` has inserted is found, and all other names are found as before; the name was
-- not in the table.
pub symbol_lookup-symbol_insert :
    (name other : List ℕ) (value : ℕ) (table table' : List Symbol)
    → symbol_insert name value table ≡ some table'
    → (symbol_lookup name table ≡ none)
      × (symbol_lookup other table' ≡ (
          if same name other
          then some (record { value = value; name = name })
          else symbol_lookup other table))
unfolding symbol_insert symbol_lookup
symbol_lookup-symbol_insert name other value table table' h =
    elim (Option-cases (symbol_lookup name table)) [
      | inl e ↦
          let table_is : some (record { value = value; name = name } ∷ table) ≡ some table' =
            rw (symbol_insert, e) at h in
          (e, rw (← some_inj.0 table_is) refl)
      | inr (s, e) ↦ let no : none ≡ some table' = rw (symbol_insert, e) at h in cc
    ]

-- What the first pass keeps from state to state.
record Extends (s s' : First) : Type 0 where
  quiet : s'.errors ≡ [] → s.errors ≡ []
  kept :
      (name : List ℕ) (symbol : Symbol)
      → symbol_lookup name s.table ≡ some symbol
      → symbol_lookup name s'.table ≡ some symbol

Extends-trans : (s t u : First) → Extends s t → Extends t u → Extends s u
Extends-trans s t u a b = record {
  quiet = λ h. a.quiet (b.quiet h);
  kept = λ name symbol h. b.kept name symbol (a.kept name symbol h);
}

kept-insert :
    (name other : List ℕ) (value : ℕ) (table table' : List Symbol) (symbol : Symbol)
    → symbol_insert name value table ≡ some table'
    → symbol_lookup other table ≡ some symbol
    → symbol_lookup other table' ≡ some symbol
kept-insert name other value table table' symbol h k =
    let (absent, found) = symbol_lookup-symbol_insert name other value table table' h in
    elim (Bool-cases (same name other)) [
      | inl e ↦ let n : none ≡ some symbol = sym (rw (same→eq name other e) at absent) ∙ k in cc
      | inr e ↦ rw (found, e) k
    ]

labelled-Extends :
    (name : List ℕ) (value : ℕ) (o : Option (List Symbol)) (s : First)
    → symbol_insert name value s.table ≡ o
    → Extends s (labelled name o s)
unfolding labelled
labelled-Extends name value none s e = record {
  quiet = λ h. (append_empty s.errors _ h).0;
  kept = λ other symbol h. h;
}
labelled-Extends name value (some table) s e = record {
  quiet = λ h. h;
  kept = λ other symbol h. kept-insert name other value s.table table symbol e h;
}

count_opcode-Extends : (ts : List Token) (s : First) → Extends s (count_opcode ts s)
unfolding count_opcode
count_opcode-Extends [] s = record { quiet = λ h. h; kept = λ name symbol h. h }
count_opcode-Extends (t ∷ ts) s = record { quiet = λ h. h; kept = λ name symbol h. h }

add_label-Extends : (label : Token) (s : First) → Extends s (add_label label s)
unfolding add_label
add_label-Extends label s = labelled-Extends (text label) (s.pc % 2 ^ 32) _ s refl

statement-Extends :
    (x : Token) (rest : List Token) (s : First) → Extends s (first_statement x rest s)
unfolding first_statement
statement-Extends x rest s = elim (statement-cases rest) [
  | inl found ↦
      rw found.1
        (Extends-trans s (add_label x s) _ (add_label-Extends x s) (count_opcode-Extends found.0 _))
  | inr plain ↦ rw (plain.0 x s) (count_opcode-Extends (x ∷ rest) s)
]

if-Extends :
    (b : Bool) (x : Token) (s s' : First)
    → Extends s s'
    → Extends s
        (if b then record s { errors = s.errors ++ (delimiter_at_beginning x ∷ []) } else s')
if-Extends true x s s' e = record {
  quiet = λ h. absurd (snoc-ne s.errors (delimiter_at_beginning x) h);
  kept = λ name symbol h. h;
}
if-Extends false x s s' e = e

first_line-Extends : (line : List Token) (s : First) → Extends s (first_line line s)
unfolding first_line
first_line-Extends [] s = record { quiet = λ h. h; kept = λ name symbol h. h }
first_line-Extends (x ∷ rest) s = if-Extends (is_delimiter x) x s _ (statement-Extends x rest s)

first_lines-Extends : (lines : List (List Token)) (s : First) → Extends s (first_lines lines s)
unfolding first_lines
first_lines-Extends [] s = record { quiet = λ h. h; kept = λ name symbol h. h }
first_lines-Extends (line ∷ rest) s =
    Extends-trans s (first_line line s) _ (first_line-Extends line s) (first_lines-Extends rest _)

lines-Together :
    (table : List Symbol) (lines : List (List Token)) (s : First) (q : Second)
    → (first_lines lines s).errors ≡ []
    → (second_lines table lines q).errors ≡ []
    → (q.errors ≡ [] → Together s q)
    → Together (first_lines lines s) (second_lines table lines q)
unfolding first_lines second_lines
lines-Together table [] s q f h t = t h
lines-Together table (line ∷ rest) s q f h t =
    let f' = (first_lines-Extends rest (first_line line s)).quiet f in
    lines-Together table rest (first_line line s) (second_line table line q) f h
      (λ k. line-Together table line s q f' k t)

-- When neither pass complains, the first one has counted the words that the second one prints.
pub first_pass-second_pass :
    (garbage : ℕ) (table : List Symbol) (lines : List (List Token))
    → (first_pass lines).errors ≡ []
    → (second_pass garbage table lines).errors ≡ []
    → length (second_pass garbage table lines).printed ≡ (first_pass lines).pc
unfolding first_pass second_pass
first_pass-second_pass garbage table lines f h =
    let t =
      lines-Together table lines _ _ f h
        (λ e. record { quiet = e; same_pc = refl; counted = refl }) in
    t.counted ∙ sym t.same_pc

first_lines-append :
    (xs ys : List (List Token)) (s : First)
    → first_lines (xs ++ ys) s ≡ first_lines ys (first_lines xs s)
unfolding first_lines
first_lines-append [] ys s = refl
first_lines-append (x ∷ xs) ys s = first_lines-append xs ys (first_line x s)

-- A program with a label on one of its lines.
abbrev pub around : List (List Token) → Token → List Token → List (List Token) → List (List Token)
around before label rest after = before ++ (label ∷ colon ∷ rest) ∷ after

labelled-lookup :
    (name : List ℕ) (value : ℕ) (o : Option (List Symbol)) (s : First)
    → symbol_insert name value s.table ≡ o
    → (labelled name o s).errors ≡ []
    → symbol_lookup name (labelled name o s).table ≡ some (record { value = value; name = name })
unfolding labelled
labelled-lookup name value none s e h = absurd (snoc-ne s.errors (duplicate_symbol name) h)
labelled-lookup name value (some table) s e h =
    (symbol_lookup-symbol_insert name name value s.table table e).1 ∙ rw (same_self name) refl

address_from :
    (s : First) (label : Token) (rest : List Token) (after : List (List Token))
    → is_delimiter label ≡ false
    → (first_lines ((label ∷ colon ∷ rest) ∷ after) s).errors ≡ []
    → (s.errors ≡ [])
      × (symbol_lookup (text label) (first_lines ((label ∷ colon ∷ rest) ∷ after) s).table
          ≡ some (record { value = s.pc % 2 ^ 32; name = text label }))
unfolding first_lines first_line first_statement add_label
address_from s label rest after n f =
    let t = add_label label s in
    let u = count_opcode rest t in
    let line_is : first_line (label ∷ colon ∷ rest) s ≡ u = rw (first_line, n) refl in
    let later =
      Extends-trans t u (first_lines after u) (count_opcode-Extends rest t)
        (first_lines-Extends after u) in
    let quiet : (first_lines after u).errors ≡ [] = rw (← line_is) f in
    let labelled_quiet = later.quiet quiet in
    let value = s.pc % 2 ^ 32 in
    let found = labelled-lookup (text label) value _ s refl labelled_quiet in
    (
      (add_label-Extends label s).quiet labelled_quiet,
      ap (λ (t : First). symbol_lookup (text label) (first_lines after t).table) line_is
          ∙ later.kept _ _ found,
    )

-- When the first pass does not complain, and the second pass has no complaint about the lines
-- before a label, whatever is left of them, the symbol table gives the label the number of words
-- that the second pass prints for these lines.
pub label_address :
    (garbage : ℕ) (before : List (List Token)) (label : Token) (rest : List Token)
    (after : List (List Token))
    → is_delimiter label ≡ false
    → (first_pass (around before label rest after)).errors ≡ []
    → (second_pass garbage (first_pass (around before label rest after)).table before).errors ≡ []
    → let table = (first_pass (around before label rest after)).table in
      symbol_lookup (text label) table
      ≡ some (record {
        value = length (second_pass garbage table before).printed % 2 ^ 32;
        name = text label;
      })
unfolding first_pass
label_address garbage before label rest after n f h =
    let start : First = record { pc = 0; table = []; errors = [] } in
    let whole = first_lines-append before ((label ∷ colon ∷ rest) ∷ after) start in
    let (quiet, found) =
      address_from (first_lines before start) label rest after n (rw whole at f) in
    let count = first_pass-second_pass garbage _ before quiet h in rw (count, whole) found
