-- ===== src/Assembler/Labels.antt =====
-- The two passes of project-2/prj2/Assembly/assemble32.c agree on the program counter, and the
-- symbol table gives each label the place of the next word in the output.
use da_bus.Base.{
  ℕ, ◌+◌, ◌%◌, ◌^◌, ◌≡◌, refl, sym, ◌∙◌, ◌≢◌, Bool, true, false, Option, none, some, List, [], ◌∷◌,
  ◌++◌, arith, if◌then◌else◌, ◌⊎◌, inl, inr, length, length-append,
}
use da_bus.Assembler.{
  Token, colon, comma, lparen, rparen, word, text, Complaint, bad_delimiter, delimiter_at_beginning,
}
use da_bus.Assembler.Symbols.{Symbol, symbol_insert}
use da_bus.Assembler.Table.{Instruction, lookup_instruction}
use da_bus.Assembler.Encode.{encode}
use da_bus.Assembler.Branches.{append_empty}
use da_bus.Assembler.Passes.{
  is_delimiter, First, Second, count_opcode, labelled, add_label, first_statement, first_line,
  emit_code, translate_as, translate, second_statement, second_line,
}

-- A statement has a label, or both passes read it from its first token on.
pub statement-cases :
    (rest : List Token)
    → ((r : List Token) × (rest ≡ colon ∷ r))
      ⊎ (((t : Token) (s : First) → first_statement t rest s ≡ count_opcode (t ∷ rest) s)
          × ((table : List Symbol) (t : Token) (q : Second)
              → second_statement table t rest q ≡ translate table (t ∷ rest) q))
unfolding first_statement second_statement
statement-cases (colon ∷ r) = inl (r, refl)
statement-cases [] = inr (λ t s. refl, λ table t q. refl)
statement-cases (comma ∷ r) = inr (λ t s. refl, λ table t q. refl)
statement-cases (lparen ∷ r) = inr (λ t s. refl, λ table t q. refl)
statement-cases (rparen ∷ r) = inr (λ t s. refl, λ table t q. refl)
statement-cases (word w ∷ r) = inr (λ t s. refl, λ table t q. refl)

-- Where the passes stand after the same lines, if neither has complained.
pub record Together (s : First) (q : Second) : Type 0 where
  pub quiet : q.errors ≡ []
  pub same_pc : s.pc ≡ q.pc
  pub counted : length q.printed ≡ q.pc

pub snoc-ne : (es : List Complaint) (e : Complaint) → es ++ (e ∷ []) ≢ []
snoc-ne es e h = cc ((append_empty es (e ∷ []) h).1)

emit_code-Together :
    (s : First) (q : Second) (code : Option ℕ)
    → Together s q
    → Together (record s { pc = s.pc + 1 }) (emit_code code q)
unfolding emit_code
emit_code-Together s q none t = record {
  quiet = t.quiet;
  same_pc = omega (arith, t.same_pc);
  counted = omega (arith, t.counted, length-append q.printed (q.machinecode ∷ []));
}
emit_code-Together s q (some w) t = record {
  quiet = t.quiet;
  same_pc = omega (arith, t.same_pc);
  counted = omega (arith, t.counted, length-append q.printed (w ∷ []));
}

emit_code-errors : (q : Second) (code : Option ℕ) → (emit_code code q).errors ≡ q.errors
unfolding emit_code
emit_code-errors q none = refl
emit_code-errors q (some w) = refl

complain-Together :
    (s : First) (q : Second) (es : List Complaint)
    → q.errors ++ es ≡ []
    → (q.errors ≡ [] → Together s q)
    → Together s (record q { errors = q.errors ++ es })
complain-Together s q es h t =
    let (e, _) = append_empty q.errors es h in
    record { quiet = h; same_pc = (t e).same_pc; counted = (t e).counted }

translate_as-Together :
    (table : List Symbol) (x : Token) (tokens : List Token) (i : Option Instruction) (s : First)
    (q : Second)
    → (translate_as table x tokens i q).errors ≡ []
    → (q.errors ≡ [] → Together s q)
    → Together (record s { pc = s.pc + 1 }) (translate_as table x tokens i q)
unfolding translate_as
translate_as-Together table x tokens none s q h t = absurd (snoc-ne _ _ h)
translate_as-Together table x tokens (some i) s q h t =
    let (code, es) = encode table q.pc i.opcode (text x) tokens i.format in
    let q' : Second = record q { errors = q.errors ++ es } in
    emit_code-Together s q' code (complain-Together s q es (sym (emit_code-errors q' code) ∙ h) t)

if-Together :
    (b : Bool) (s : First) (complained go_on : Second)
    → complained.errors ≢ []
    → (go_on.errors ≡ [] → Together s go_on)
    → (if b then complained else go_on).errors ≡ []
    → Together s (if b then complained else go_on)
if-Together true s complained go_on n t h = absurd (n h)
if-Together false s complained go_on n t h = t h

-- The second pass goes on as the first one does on what follows a label.
translate-Together :
    (table : List Symbol) (ts : List Token) (s : First) (q : Second)
    → (translate table ts q).errors ≡ []
    → (q.errors ≡ [] → Together s q)
    → Together (count_opcode ts s) (translate table ts q)
unfolding translate count_opcode
translate-Together table [] s q h t = t h
translate-Together table (x ∷ tokens) s q h t =
    if-Together (is_delimiter x) (record s { pc = s.pc + 1 }) _ _
      (snoc-ne q.errors (bad_delimiter x))
      (λ k. translate_as-Together table x tokens (lookup_instruction (text x)) s q k t) h

pub first_errors : (ts : List Token) (s : First) → (count_opcode ts s).errors ≡ s.errors
unfolding count_opcode
first_errors [] s = refl
first_errors (t ∷ ts) s = refl

labelled-pc : (name : List ℕ) (o : Option (List Symbol)) (s : First) → (labelled name o s).pc ≡ s.pc
unfolding labelled
labelled-pc name none s = refl
labelled-pc name (some table) s = refl

label-Together : (x : Token) (s : First) (q : Second) → Together s q → Together (add_label x s) q
unfolding add_label
label-Together x s q t = record {
  quiet = t.quiet;
  same_pc = labelled-pc (text x) (symbol_insert (text x) (s.pc % 2 ^ 32) s.table) s ∙ t.same_pc;
  counted = t.counted;
}

statement-Together :
    (table : List Symbol) (x : Token) (rest : List Token) (s : First) (q : Second)
    → (second_statement table x rest q).errors ≡ []
    → (q.errors ≡ [] → Together s q)
    → Together (first_statement x rest s) (second_statement table x rest q)
unfolding first_statement second_statement
statement-Together table x rest s q h t = elim (statement-cases rest) [
  | inl found ↦
      let h' : (translate table found.0 q).errors ≡ [] = rw found.1 at h in
      rw found.1
        (translate-Together table found.0 (add_label x s) q h' (λ k. label-Together x s q (t k)))
  | inr plain ↦
      rw (plain.0 x s, plain.1 table x q)
        (translate-Together table (x ∷ rest) s q (rw (plain.1 table x q) at h) t)
]

pub first_if-quiet :
    (b : Bool) (s s' : First) (x : Token)
    → (if b then record s { errors = s.errors ++ (delimiter_at_beginning x ∷ []) } else s').errors
      ≡ []
    → b ≡ false
first_if-quiet true s s' x h = absurd (snoc-ne s.errors (delimiter_at_beginning x) h)
first_if-quiet false s s' x h = refl

-- One line, if the first pass does not complain about it.
pub line-Together :
    (table : List Symbol) (line : List Token) (s : First) (q : Second)
    → (first_line line s).errors ≡ []
    → (second_line table line q).errors ≡ []
    → (q.errors ≡ [] → Together s q)
    → Together (first_line line s) (second_line table line q)
unfolding first_line second_line
line-Together table [] s q f h t = t h
line-Together table (x ∷ rest) s q f h t =
    let e = first_if-quiet (is_delimiter x) s _ x f in
    let h' : (second_statement table x rest q).errors ≡ [] = rw e at h in
    rw e (statement-Together table x rest s q h' t)
