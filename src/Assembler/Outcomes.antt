-- ===== src/Assembler/Outcomes.antt =====
-- `main` of project-2/prj2/Assembly/assemble32.c.
use da_bus.Base.{
  ℕ, ◌≡◌, refl, Bool, true, false, none, some, List, [], ◌∷◌, ◌++◌, arith, if◌then◌else◌, length,
  has,
}
use da_bus.Assembler.{codes, Complaint}
use da_bus.Assembler.Passes.{
  Outcome, assemble, succeeds, lines_of, first_pass, second_pass, print_words, before_dot,
  construct_output_filename,
}
use da_bus.Assembler.Addresses.{first_pass-second_pass}

succeeds→empty : (es : List Complaint) → succeeds es ≡ true → es ≡ []
succeeds→empty [] h = refl
succeeds→empty (e ∷ es) h = cc

zero_status :
    (c : Bool) (x y : Outcome)
    → y.status ≡ 1
    → (if c then x else y).status ≡ 0
    → (c ≡ true) × (x.status ≡ 0)
zero_status true x y n h = (refl, h)
zero_status false x y n h = absurd (omega (arith, n, h))

-- When `main` returns 0 on a file, it could open its output, neither pass has complained, and the
-- file written under the constructed name holds the words of the second pass, as many as the first
-- pass has counted.
pub assemble-success :
    (garbage : ℕ) (name bytes : List ℕ) (opens : Bool)
    → (assemble garbage name (some bytes) opens).status ≡ 0
    → let first = first_pass (lines_of bytes) in
      let second = second_pass garbage first.table (lines_of bytes) in
      (opens ≡ true)
      × (first.errors ≡ [])
      × (second.errors ≡ [])
      × ((assemble garbage name (some bytes) opens).written
          ≡ some (construct_output_filename name, print_words second.printed))
      × (length second.printed ≡ first.pc)
unfolding assemble
assemble-success garbage name bytes opens h =
    let first = first_pass (lines_of bytes) in
    let second = second_pass garbage first.table (lines_of bytes) in
    let (first_ok, h1) = zero_status (succeeds first.errors) _ _ refl h in
    let (opened, h2) = zero_status opens _ _ refl h1 in
    let (second_ok, _) = zero_status (succeeds second.errors) _ _ refl h2 in
    let first_quiet = succeeds→empty first.errors first_ok in
    let second_quiet = succeeds→empty second.errors second_ok in
    (
      opened,
      first_quiet,
      second_quiet,
      rw (assemble, first_ok, opened, second_ok) refl,
      first_pass-second_pass garbage first.table (lines_of bytes) first_quiet second_quiet,
    )

before_dot-none : (name : List ℕ) → has b'.' name ≡ false → before_dot name ≡ none
unfolding before_dot
before_dot-none [] h = refl
before_dot-none (c ∷ rest) h = rw (before_dot-none rest (ground arith)) (ground arith)

before_dot-some :
    (stem extension : List ℕ)
    → has b'.' extension ≡ false
    → before_dot (stem ++ b'.' ∷ extension) ≡ some stem
unfolding before_dot
before_dot-some [] extension h = rw (before_dot-none extension h) refl
before_dot-some (c ∷ stem) extension h = rw (before_dot-some stem extension h) refl

-- A name whose extension has no `.` gets `.lc` in its place, and a name with no `.` at all gets it
-- at its end.
pub construct_output_filename_lem :
    (stem extension : List ℕ)
    → has b'.' extension ≡ false
    → (construct_output_filename (stem ++ b'.' ∷ extension) ≡ stem ++ codes ".lc")
      × (construct_output_filename extension ≡ extension ++ codes ".lc")
unfolding construct_output_filename
construct_output_filename_lem stem extension h = (
  rw (construct_output_filename, before_dot-some stem extension h) refl,
  rw (construct_output_filename, before_dot-none extension h) refl,
)
