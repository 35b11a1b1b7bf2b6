-- ===== src/Cfg/Leaders.antt =====
-- cfg.go, `buildCFG`: the leaders are the offsets that every edge of the graph leads to.
use shell_sight.Common.{
  ℕ, Bool, true, false, not, ◌||◌, List, [], ◌∷◌, length, ◌≡◌, refl, arith, Bool-cases, inl, inr,
  ltb, ◌==◌, All, if◌then◌else◌,
}
use shell_sight.Bytecode.Decode.{Instruction}
use shell_sight.Cfg.Offsets.{member, add, add_all}
use shell_sight.Cfg.Offsets.Laws.{
  HasNoRepeat, add-HasNoRepeat, add_all-HasNoRepeat, Within, member-add, member-add_self,
  member-add_all, add_all-all,
}
use shell_sight.Cfg.Validate.{ExceptionHandler}
use shell_sight.Cfg.Build.{instruction_leaders, handler_leaders, leaders, add_first}

-- What the offsets in `b` must hold for the instructions and the handlers.
abbrev pub TargetsIn : List ℕ → List Instruction → Type 0
TargetsIn b instructions = All (λ ins. Within ins.targets b) instructions

abbrev pub HandlersIn : List ℕ → List ExceptionHandler → Type 0
HandlersIn b handlers = All (λ h. member h.handler b ≡ true) handlers

module _ (b c : List ℕ) (bc : Within b c) where
  TargetsIn-mono : (xs : List Instruction) → TargetsIn b xs → TargetsIn c xs
  TargetsIn-mono [] h = tt
  TargetsIn-mono (x ∷ xs) h = (λ y m. bc y (h.0 y m), TargetsIn-mono xs h.1)

  HandlersIn-mono : (hs : List ExceptionHandler) → HandlersIn b hs → HandlersIn c hs
  HandlersIn-mono [] h = tt
  HandlersIn-mono (x ∷ xs) h = (bc x.handler h.0, HandlersIn-mono xs h.1)

step_leaders : Instruction → List Instruction → List ℕ → List ℕ
step_leaders ins rest set =
    let with_targets = add_all ins.targets set in
    if not (length ins.targets == 0) || not ins.fallthrough
    then add_first rest with_targets
    else with_targets

add_first-keeps : (rest : List Instruction) (set : List ℕ) → Within set (add_first rest set)
unfolding add_first
add_first-keeps [] set y h = h
add_first-keeps (ins ∷ rest) set y h = member-add ins.offset y set h

step_leaders-keeps :
    (ins : Instruction) (rest : List Instruction) (set : List ℕ)
    → Within (add_all ins.targets set) (step_leaders ins rest set)
unfolding step_leaders
step_leaders-keeps ins rest set y h =
    elim (Bool-cases (not (length ins.targets == 0) || not ins.fallthrough)) [
      | inl ends ↦ rw ends (add_first-keeps rest (add_all ins.targets set) y h)
      | inr goes_on ↦ rw goes_on h
    ]

instruction_leaders-keeps :
    (xs : List Instruction) (set : List ℕ) → Within set (instruction_leaders xs set)
unfolding instruction_leaders step_leaders
instruction_leaders-keeps [] set y h = h
instruction_leaders-keeps (ins ∷ rest) set y h =
    instruction_leaders-keeps rest (step_leaders ins rest set) y
      (step_leaders-keeps ins rest set y (member-add_all ins.targets set y h))

instruction_leaders-targets :
    (xs : List Instruction) (set : List ℕ) → TargetsIn (instruction_leaders xs set) xs
unfolding instruction_leaders step_leaders
instruction_leaders-targets [] set = tt
instruction_leaders-targets (ins ∷ rest) set = (
  λ y m.
      instruction_leaders-keeps rest (step_leaders ins rest set) y
        (step_leaders-keeps ins rest set y (add_all-all ins.targets set y m)),
  instruction_leaders-targets rest (step_leaders ins rest set),
)

step_handler : ExceptionHandler → ℕ → List ℕ → List ℕ
step_handler h code_length set =
    let with_start = add h.start set in
    let with_end = if ltb h.end code_length then add h.end with_start else with_start in
    add h.handler with_end

step_handler-keeps :
    (h : ExceptionHandler) (n : ℕ) (set : List ℕ) → Within set (step_handler h n set)
unfolding step_handler
step_handler-keeps h n set y m = elim (Bool-cases (ltb h.end n)) [
  | inl e ↦ rw e (member-add h.handler y _ (member-add h.end y _ (member-add h.start y set m)))
  | inr e ↦ rw e (member-add h.handler y _ (member-add h.start y set m))
]

handler_leaders-keeps :
    (hs : List ExceptionHandler) (n : ℕ) (set : List ℕ) → Within set (handler_leaders hs n set)
unfolding handler_leaders step_handler
handler_leaders-keeps [] n set y m = m
handler_leaders-keeps (h ∷ hs) n set y m =
    handler_leaders-keeps hs n (step_handler h n set) y (step_handler-keeps h n set y m)

handler_leaders-handlers :
    (hs : List ExceptionHandler) (n : ℕ) (set : List ℕ) → HandlersIn (handler_leaders hs n set) hs
unfolding handler_leaders step_handler
handler_leaders-handlers [] n set = tt
handler_leaders-handlers (h ∷ hs) n set = (
  handler_leaders-keeps hs n (step_handler h n set) h.handler (member-add_self h.handler _),
  handler_leaders-handlers hs n (step_handler h n set),
)

-- The set of leaders holds every branch target, every handler, every continuation of a `jsr` and the
-- offset of the first instruction.
pub record Leads (b : List ℕ) (instructions : List Instruction) (handlers : List ExceptionHandler)
    (continuations : List ℕ) (entry : ℕ) : Type 0 where
  pub targets : TargetsIn b instructions
  pub handler_offsets : HandlersIn b handlers
  pub continuation_offsets : Within continuations b
  pub first_offset : member entry b ≡ true

pub leaders-Leads :
    (first : Instruction) (rest : List Instruction) (handlers : List ExceptionHandler)
    (continuations : List ℕ) (n : ℕ)
    → Leads
        (leaders first rest handlers continuations n)
        (first ∷ rest)
        handlers
        continuations
        first.offset
unfolding leaders
leaders-Leads first rest handlers continuations n =
    let a = instruction_leaders (first ∷ rest) (first.offset ∷ []) in
    let b = handler_leaders handlers n a in
    let a_b = handler_leaders-keeps handlers n a in
    let b_c = member-add_all continuations b in
    record {
      targets = TargetsIn-mono b (add_all continuations b) b_c (first ∷ rest) (
          TargetsIn-mono a b a_b (first ∷ rest)
            (instruction_leaders-targets (first ∷ rest) (first.offset ∷ [])));
      handler_offsets =
          HandlersIn-mono b (add_all continuations b) b_c handlers
            (handler_leaders-handlers handlers n a);
      continuation_offsets = add_all-all continuations b;
      first_offset = b_c first.offset (
          a_b first.offset (
            instruction_leaders-keeps (first ∷ rest) (first.offset ∷ []) first.offset
              (unfold member in ground arith)));
    }

if-HasNoRepeat :
    (test : Bool) (a b : List ℕ)
    → HasNoRepeat a
    → HasNoRepeat b
    → HasNoRepeat (if test then a else b)
if-HasNoRepeat true a b h k = h
if-HasNoRepeat false a b h k = k

add_first-HasNoRepeat :
    (rest : List Instruction) (set : List ℕ) → HasNoRepeat set → HasNoRepeat (add_first rest set)
unfolding add_first
add_first-HasNoRepeat [] set h = h
add_first-HasNoRepeat (ins ∷ rest) set h = add-HasNoRepeat ins.offset set h

instruction_leaders-HasNoRepeat :
    (xs : List Instruction) (set : List ℕ)
    → HasNoRepeat set
    → HasNoRepeat (instruction_leaders xs set)
unfolding instruction_leaders
instruction_leaders-HasNoRepeat [] set h = h
instruction_leaders-HasNoRepeat (ins ∷ rest) set h =
    let grown = add_all-HasNoRepeat ins.targets set h in
    instruction_leaders-HasNoRepeat rest _
      (if-HasNoRepeat _ _ _ (add_first-HasNoRepeat rest (add_all ins.targets set) grown) grown)

handler_leaders-HasNoRepeat :
    (hs : List ExceptionHandler) (n : ℕ) (set : List ℕ)
    → HasNoRepeat set
    → HasNoRepeat (handler_leaders hs n set)
unfolding handler_leaders
handler_leaders-HasNoRepeat [] n set h = h
handler_leaders-HasNoRepeat (x ∷ hs) n set h =
    let with_start = add-HasNoRepeat x.start set h in
    handler_leaders-HasNoRepeat hs n _ (
      add-HasNoRepeat x.handler _ (
        if-HasNoRepeat (ltb x.end n) _ _ (add-HasNoRepeat x.end (add x.start set) with_start)
          with_start))

pub leaders-HasNoRepeat :
    (first : Instruction) (rest : List Instruction) (handlers : List ExceptionHandler)
    (continuations : List ℕ) (n : ℕ)
    → HasNoRepeat (leaders first rest handlers continuations n)
unfolding leaders member
leaders-HasNoRepeat first rest handlers continuations n = add_all-HasNoRepeat continuations _ (
    handler_leaders-HasNoRepeat handlers n _
      (instruction_leaders-HasNoRepeat (first ∷ rest) (first.offset ∷ []) (refl, tt)))
