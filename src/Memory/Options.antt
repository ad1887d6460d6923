-- ===== src/Memory/Options.antt =====
-- `sim_setoptions` of project-4/prj4/simulator-src/sim.c. What getopt returns is a list of option
-- characters with their arguments, NULL for none, and the arguments behind them.
use mathlib.Core.Path.{subst}
use mathlib.Core.Option.{some_inj}
use native.Mathlib.Nat.{div-add-mod, mod-lt}
use da_bus.Base.{
  ℕ, ◌+◌, ◌*◌, ◌/◌, ◌%◌, ◌^◌, ◌≤◌, ◌<◌, ◌≡◌, sym, ap, ◌∙◌, Bool, true, false, ◌&&◌, Option, none,
  some, List, [], ◌∷◌, arith, ltb, leb, ◌==◌, if◌then◌else◌, Bool-cases, Option-cases, inl, inr,
}
use da_bus.Base.Bits.{pow_two_pos, pow_two_mono}
use da_bus.Assembler.Numbers.{atoi}
use da_bus.Memory.{Config, num_frames}
use da_bus.Memory.Invariant.{IsConfig}

-- The number of an argument that is there, from `low` to `high`; none is the exit with a message.
unfoldable pub number_option : ℕ → ℕ → Option (List ℕ) → Option ℕ
number_option low high none = none
number_option low high (some arg) =
    if leb low (atoi arg) && leb (atoi arg) high then some (atoi arg) else none

unfoldable pub with_number : Option ℕ → (ℕ → Config) → Option Config
with_number none f = none
with_number (some n) f = some (f n)

-- One option; `h` and characters that are none exit with the usage text.
unfoldable pub set_option : ℕ → Option (List ℕ) → Config → Option Config
set_option o arg c =
    if o == b'p'
    then with_number (number_option 1 16 arg) (λ n. record c { page_size = 2 ^ n })
    else if o == b'm'
    then with_number (number_option 1 20 arg) (λ n. record c { mem_size = 2 ^ n })
    else if o == b't'
    then with_number (number_option 0 255 arg) (λ n. record c { tlb_size = n })
    else if o == b'j'
    then with_number (number_option 0 32 arg) (λ n. record c { max_jobs = n })
    else none

unfoldable pub set_options : List (ℕ × Option (List ℕ)) → Config → Option Config
set_options [] c = some c
set_options ((o, arg) ∷ rest) c = elim (set_option o arg c) [
  | none ↦ none
  | some c' ↦ set_options rest c'
]

-- The configuration and the name of the references file.
unfoldable pub sim_setoptions :
    List (ℕ × Option (List ℕ)) → List (List ℕ) → Config → Option (Config × List ℕ)
sim_setoptions opts [] c = none
sim_setoptions opts (filename ∷ rest) c = elim (set_options opts c) [
  | none ↦ none
  | some c' ↦ if ltb c'.mem_size c'.page_size then none else some (c', filename)
]

-- The sizes that the options allow.
pub record IsSized (c : Config) : Type 0 where
  pub page : (0 < c.page_size) × (c.page_size ≤ 2 ^ 16)
  pub memory : (0 < c.mem_size) × (c.mem_size ≤ 2 ^ 20)
  pub tlb : c.tlb_size ≤ 255
  pub jobs : c.max_jobs ≤ 32

number_option_lem :
    (low high : ℕ) (arg : Option (List ℕ)) (n : ℕ)
    → number_option low high arg ≡ some n
    → (low ≤ n) × (n ≤ high)
unfolding number_option
number_option_lem low high none n h = absurd (ground (arith, h))
number_option_lem low high (some arg) n h =
    elim (Bool-cases (leb low (atoi arg) && leb (atoi arg) high)) [
      | inl e ↦
          let same : some (atoi arg) ≡ some n = rw e at h in
          let f = some_inj.0 same in ground (arith, e, f)
      | inr e ↦ let no : none ≡ some n = rw e at h in absurd (ground (arith, no))
    ]

-- The result, if there is one, is sized.
abbrev Sized : Option Config → Type 0
Sized none = Unit
Sized (some c) = IsSized c

with_number-Sized :
    (low high : ℕ) (arg : Option (List ℕ)) (f : ℕ → Config)
    → ((n : ℕ) → low ≤ n → n ≤ high → IsSized (f n))
    → Sized (with_number (number_option low high arg) f)
unfolding with_number
with_number-Sized low high arg f h = elim (Option-cases (number_option low high arg)) [
  | inl e ↦ rw (with_number, e) tt
  | inr (n, e) ↦ let r = number_option_lem low high arg n e in rw (with_number, e) (h n r.0 r.1)
]

Sized-if : (b : Bool) (x y : Option Config) → Sized x → Sized y → Sized (if b then x else y)
Sized-if true x y v w = v
Sized-if false x y v w = w

set_option-Sized :
    (o : ℕ) (arg : Option (List ℕ)) (c : Config) → IsSized c → Sized (set_option o arg c)
unfolding set_option
set_option-Sized o arg c v =
    Sized-if (o == b'p') _ _
      (with_number-Sized 1 16 arg (λ n. record c { page_size = 2 ^ n })
        (λ n l h. record {
          page = (pow_two_pos n, pow_two_mono n 16 h);
          memory = v.memory;
          tlb = v.tlb;
          jobs = v.jobs;
        }))
      (Sized-if (o == b'm') _ _
        (with_number-Sized 1 20 arg (λ n. record c { mem_size = 2 ^ n })
          (λ n l h. record {
            page = v.page;
            memory = (pow_two_pos n, pow_two_mono n 20 h);
            tlb = v.tlb;
            jobs = v.jobs;
          }))
        (Sized-if (o == b't') _ _
          (with_number-Sized 0 255 arg (λ n. record c { tlb_size = n })
            (λ n l h. record { page = v.page; memory = v.memory; tlb = h; jobs = v.jobs }))
          (Sized-if (o == b'j') _ _
            (with_number-Sized 0 32 arg (λ n. record c { max_jobs = n })
              (λ n l h. record { page = v.page; memory = v.memory; tlb = v.tlb; jobs = h }))
            tt)))

set_options-Sized :
    (opts : List (ℕ × Option (List ℕ))) (c : Config) → IsSized c → Sized (set_options opts c)
unfolding set_options
set_options-Sized [] c v = v
set_options-Sized ((o, arg) ∷ rest) c v = elim (Option-cases (set_option o arg c)) [
  | inl e ↦ rw (set_options, e) tt
  | inr (c', e) ↦
      rw (set_options, e) (set_options-Sized rest c' (subst Sized e (set_option-Sized o arg c v)))
]

frames : (c : Config) → 0 < c.page_size → c.page_size ≤ c.mem_size → 0 < num_frames c
frames c pos fits =
    let d = div-add-mod c.mem_size c.page_size in
    let l = mod-lt c.mem_size pos in
    elim (Bool-cases (ltb 0 (c.mem_size / c.page_size))) [
      | inl e ↦ ground arith
      | inr e ↦
          let z : c.mem_size / c.page_size ≡ 0 = ground arith in
          absurd (
            omega (arith, subst (λ q. c.page_size * q + c.mem_size % c.page_size ≡ c.mem_size) z d))
    ]

pub sim_setoptions-IsConfig :
    (opts : List (ℕ × Option (List ℕ))) (operands : List (List ℕ)) (c c' : Config) (name : List ℕ)
    → IsSized c
    → sim_setoptions opts operands c ≡ some (c', name)
    → 0 < c'.tlb_size
    → IsConfig c' × IsSized c'
unfolding sim_setoptions
sim_setoptions-IsConfig opts [] c c' name v h tlb = absurd (ground (arith, h))
sim_setoptions-IsConfig opts (file ∷ rest) c c' name v h tlb =
    elim (Option-cases (set_options opts c)) [
      | inl e ↦
          let no : none ≡ some (c', name) = rw (sim_setoptions, e) at h in
          absurd (ground (arith, no))
      | inr (d, e) ↦ elim (Bool-cases (ltb d.mem_size d.page_size)) [
        | inl f ↦
            let no : none ≡ some (c', name) = rw (sim_setoptions, e, f) at h in
            absurd (ground (arith, no))
        | inr f ↦
            let same : some (d, file) ≡ some (c', name) = rw (sim_setoptions, e, f) at h in
            let q : d ≡ c' = ap (λ (r : Config × List ℕ). r.0) (some_inj.0 same) in
            let w : IsSized c' = subst IsSized q (subst Sized e (set_options-Sized opts c v)) in
            let g : ltb c'.mem_size c'.page_size ≡ false =
              ap (λ (z : Config). ltb z.mem_size z.page_size) (sym q) ∙ f in
            (
              record {
                page_pos = w.page.0;
                frames_pos = frames c' w.page.0 (ground (arith, g));
                tlb_pos = tlb;
                small = omega (arith, w.memory);
              },
              w,
            )
      ]
    ]
