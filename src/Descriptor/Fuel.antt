-- ===== src/Descriptor/Fuel.antt =====
-- The levels and the rounds of the parser of descriptors are enough for every text.
use shell_sight.Common.{
  ℕ, zero, suc, ◌+◌, ◌-◌, ◌≤◌, ◌<◌, ◌≡◌, ◌≢◌, ◌⊎◌, inl, inr, refl, sym, ap, ◌∙◌, arith,
  if◌then◌else◌, Bool, true, false, List, [], ◌∷◌, ◌++◌, length, drop, ==_iff, ◌==◌, ltb,
  Bool-cases,
}
use shell_sight.Common.Result.{Result, ok, err, ◌>>=◌, Result-cases, map_err}
use shell_sight.Bytecode.Words.{Bytes}
use shell_sight.Descriptor.{
  DescriptorType, DescriptorError, out_of_fuel, in_parameter, in_result, Parsed, name_loop,
  close_object, parse_object, skip_dimensions, array_component, array_type, parse_array, parse_byte,
  parse_type_deep, parse_type, at_end, parse_parameters, parse_result, parse_method_descriptor,
  max_jvm_parameter_slots,
}
use shell_sight.Descriptor.Fields.{field_length}
use shell_sight.Descriptor.Objects.{length-piece}
use shell_sight.Descriptor.Reads.{Bytes-cases, parse_field_sound}
use shell_sight.Descriptor.Types.{byte_array}
use shell_sight.Descriptor.Grammar.{print_field}

-- Does the error say that the fuel ended?
unfoldable pub ran_out : DescriptorError → Bool
ran_out out_of_fuel = true
ran_out (in_parameter k e) = ran_out e
ran_out (in_result e) = ran_out e
ran_out _ = false

err_injective :
    {A : Type 0} {d e : DescriptorError}
    → ◌≡◌ {A = Result DescriptorError A} (err d) (err e)
    → d ≡ e
err_injective h = cc

abbrev InFuel : {A : Type 0} → Result DescriptorError A → Type 0
InFuel m = (e : DescriptorError) → m ≡ err e → ran_out e ≡ false

bind-InFuel :
    {A B : Type 0} (m : Result DescriptorError A) (next : A → Result DescriptorError B)
    → InFuel m
    → ((a : A) → m ≡ ok a → InFuel (next a))
    → InFuel (m >>= next)
bind-InFuel (ok a) next first then_next e h = then_next a refl e h
bind-InFuel (err why) next first then_next e h = first e cc

name_loop-InFuel : (s : Bytes) (i c : ℕ) → InFuel (name_loop s i c)
unfolding name_loop ran_out
name_loop-InFuel [] i c e h = cc
name_loop-InFuel (x ∷ s) i c e h =
    ground (arith, name_loop-InFuel s (suc i) (if x == b'/' then suc i else c) e)

close_object-InFuel :
    (value : Bytes) (start : ℕ) (array : Bool) (n : ℕ) (found : ℕ × ℕ)
    → InFuel (close_object value start array n found)
unfolding close_object ran_out
close_object-InFuel value start array n (c, i) e h = ground arith

parse_object-InFuel :
    (value : Bytes) (start : ℕ) (array : Bool) (i : ℕ) → InFuel (parse_object value start array i)
unfolding parse_object
parse_object-InFuel value start array i =
    bind-InFuel _ _ (name_loop-InFuel (drop (suc i) value) (suc i) (suc i))
      (λ found read. close_object-InFuel value start array (suc i) found)

skip_dimensions-InFuel : (s : Bytes) (n i : ℕ) → InFuel (skip_dimensions s n i)
unfolding skip_dimensions ran_out
skip_dimensions-InFuel [] n i e h = cc
skip_dimensions-InFuel (x ∷ s) n i e h = ground (arith, skip_dimensions-InFuel s (suc n) (suc i) e)

-- A byte that is no `[` needs no further level.
plain_byte-InFuel :
    (rec : ℕ → Parsed) (value : Bytes) (allow : Bool) (i byte : ℕ) (more : Bytes)
    → byte ≢ b'['
    → InFuel (parse_byte rec value allow i (byte ∷ more))
unfolding parse_byte ran_out
plain_byte-InFuel rec value allow i byte more plain e h =
    ground (arith, parse_object-InFuel value i false i e)

component_cases :
    (rec : ℕ → Parsed) (value : Bytes) (i byte : ℕ) (more : Bytes) (e : DescriptorError)
    → array_component rec value (byte ∷ more) i ≡ err e
    → (ran_out e ≡ false) ⊎ ((byte ≢ b'[') × (rec i ≡ err e))
unfolding array_component ran_out
component_cases rec value i byte more e h = ground (arith, parse_object-InFuel value i false i e)

component-InFuel :
    (value : Bytes) (i : ℕ)
    → InFuel (array_component (parse_type_deep 1 value false) value (drop i value) i)
unfolding parse_type_deep
component-InFuel value i e h = elim (Bytes-cases (drop i value)) [
  | inl empty ↦ unfold array_component ran_out in cc (rw empty at h)
  | inr (byte, more, at_i) ↦ elim (component_cases _ value i byte more e (rw at_i at h)) [
    | inl done ↦ done
    | inr (plain, inner) ↦
        plain_byte-InFuel (parse_type_deep 0 value false) value false i byte more plain e
          (rw at_i at inner)
  ]
]

array_type-InFuel :
    (value : Bytes) (start : ℕ) (found : DescriptorType × ℕ) → InFuel (array_type value start found)
array_type-InFuel value start (component, index) e h = cc

parse_array-InFuel :
    (value : Bytes) (i : ℕ) → InFuel (parse_array (parse_type_deep 1 value false) value i)
unfolding parse_array
parse_array-InFuel value i =
    bind-InFuel _ _ (skip_dimensions-InFuel (drop i value) 0 i) (λ index skipped.
      bind-InFuel _ _ (component-InFuel value index)
        (λ found read. array_type-InFuel value i found))

parse_type-InFuel : (value : Bytes) (allow : Bool) (i : ℕ) → InFuel (parse_type value allow i)
unfolding parse_type parse_type_deep
parse_type-InFuel value allow i e h = elim (Bytes-cases (drop i value)) [
  | inl empty ↦ unfold parse_byte ran_out in cc (rw empty at h)
  | inr (byte, more, at_i) ↦
      let h' = rw at_i at h in
      elim (Bool-cases (byte == b'[')) [
        | inl bracket ↦
            let is = (==_iff byte b'[').0 bracket in
            parse_array-InFuel value i e
              (sym (byte_array value (parse_type_deep 1 value false) allow i more) ∙ rw (← is) h')
        | inr other ↦
            plain_byte-InFuel (parse_type_deep 1 value false) value allow i byte more
              (λ is. let no = (==_iff byte b'[').1 is in cc) e h'
      ]
]

at_end-InFuel : (value : Bytes) (found : DescriptorType × ℕ) → InFuel (at_end value found)
unfolding at_end ran_out
at_end-InFuel value (t, i) e h = ground arith

-- Each round of the loop reads at least one byte.
progress :
    (value : Bytes) (i : ℕ) (d : DescriptorType) (next : ℕ)
    → i ≤ length value
    → parse_type value false i ≡ ok (d, next)
    → (i < next) × (next ≤ length value)
progress value i d next inside read =
    let (f, after, placed, good, ends, found) = parse_field_sound value i d next inside read in
    let some_bytes = field_length f in
    let room = length-piece value (print_field f) after i placed inside in
    (omega arith, omega arith)

-- A round that leads to an error: its own, or that of a later round.
round_errors :
    (fuel : ℕ) (value : Bytes) (i s : ℕ) (acc : List DescriptorType) (e : DescriptorError)
    → parse_parameters (suc fuel) value i s acc ≡ err e
    → (ran_out e ≡ false)
      ⊎ ((d : DescriptorType) × (next : ℕ) × (parse_type value false i ≡ ok (d, next))
          × (parse_parameters fuel value next (s + d.width) (acc ++ d ∷ []) ≡ err e))
unfolding parse_parameters ran_out
round_errors fuel value i s acc e h = elim (Bytes-cases (drop i value)) [
  | inl empty ↦ inl (cc (rw (empty, parse_parameters) at h))
  | inr (byte, more, at_i) ↦ elim (Bool-cases (byte == b')')) [
    | inl close ↦ cc (rw (at_i, close, parse_parameters) at h)
    | inr other ↦ elim (Result-cases (parse_type value false i)) [
      | inr (why, failed) ↦
          let own = rw (at_i, other, failed, parse_parameters) at h in
          let inner = parse_type-InFuel value false i why failed in
          inl (sym (ap ran_out (err_injective own)) ∙ inner)
      | inl ((d, next), read) ↦ elim (Bool-cases (ltb max_jvm_parameter_slots (s + d.width))) [
        | inl many ↦ inl (cc (rw (at_i, other, read, many, parse_parameters) at h))
        | inr few ↦ inr (d, next, read, rw (at_i, other, read, few, parse_parameters) at h)
      ]
    ]
  ]
]

parse_parameters-InFuel :
    (fuel : ℕ) (value : Bytes) (i s : ℕ) (acc : List DescriptorType)
    → i ≤ length value
    → length value - i < fuel
    → InFuel (parse_parameters fuel value i s acc)
parse_parameters-InFuel zero value i s acc inside enough e h = absurd (omega arith)
parse_parameters-InFuel (suc fuel) value i s acc inside enough e h =
    elim (round_errors fuel value i s acc e h) [
      | inl own ↦ own
      | inr (d, next, read, later) ↦
          let (more, within) = progress value i d next inside read in
          parse_parameters-InFuel fuel value next (s + d.width) (acc ++ d ∷ []) within (omega arith)
            e later
    ]

map_err-InFuel :
    (m : Result DescriptorError (DescriptorType × ℕ)) → InFuel m → InFuel (map_err in_result m)
unfolding ran_out
map_err-InFuel (ok a) first e h = cc
map_err-InFuel (err why) first e h = sym (ap ran_out (err_injective h)) ∙ first why refl

parse_result-InFuel :
    (value : Bytes) (found : List DescriptorType × ℕ × ℕ) → InFuel (parse_result value found)
unfolding parse_result
parse_result-InFuel value (ps, sl, i) =
    bind-InFuel _ _
      (bind-InFuel _ _ (map_err-InFuel _ (parse_type-InFuel value true i))
        (λ found read. at_end-InFuel value found))
      (λ t read e h. cc)

method_errors :
    (value : Bytes) (e : DescriptorError)
    → parse_method_descriptor value ≡ err e
    → (ran_out e ≡ false)
      ⊎ ((3 ≤ length value)
          × (parse_parameters (length value) value 1 0 [] >>= parse_result value ≡ err e))
unfolding parse_method_descriptor ran_out
method_errors value e h = ground arith

-- The rounds and the levels are enough for every text: no error of the parser of method descriptors,
-- at any depth, is the end of the fuel.
pub parse_method_descriptor-in_fuel :
    (value : Bytes) (e : DescriptorError)
    → parse_method_descriptor value ≡ err e
    → ran_out e ≡ false
parse_method_descriptor-in_fuel value e h = elim (method_errors value e h) [
  | inl own ↦ own
  | inr (long, chain) ↦
      bind-InFuel (parse_parameters (length value) value 1 0 []) (parse_result value)
        (parse_parameters-InFuel (length value) value 1 0 [] (omega arith) (omega arith))
        (λ found read. parse_result-InFuel value found) e chain
]
