-- ===== src/Descriptor/Parameters.antt =====
-- The loop over the parameters of a method descriptor.
use shell_sight.Common.{
  ℕ, zero, suc, ◌+◌, ◌≤◌, ◌<◌, ◌≡◌, ◌⊎◌, inl, inr, refl, sym, ap, ◌∙◌, false, List, [], ◌∷◌, ◌++◌,
  map, length, drop, arith, append_assoc, append-nil, ◌==◌, ltb, ltb-false→le, All, Bool-cases,
  ==_iff,
}
use shell_sight.Common.Result.{ok, Result-cases, ok_injective}
use shell_sight.Bytecode.Words.{Bytes}
use shell_sight.Descriptor.{DescriptorType, parse_type, parse_parameters, max_jvm_parameter_slots}
use shell_sight.Descriptor.Grammar.{
  FieldType, scalar, arrays, single, double, class, IsField, print_field, print_fields, describe,
  field_width, slots,
}
use shell_sight.Descriptor.Objects.{drop-piece, length-piece}
use shell_sight.Descriptor.Reads.{Bytes-cases, parse_field_sound, parse_type_complete}

pub width_describe : (f : FieldType) → (describe f).width ≡ field_width f
width_describe (scalar s) = refl
width_describe (arrays n s) = refl

-- No parameter begins with the byte that ends the list.
field_begins :
    (f : FieldType) (after : Bytes)
    → IsField f
    → (byte : ℕ) × (more : Bytes) × (print_field f ++ after ≡ byte ∷ more)
      × ((byte == b')') ≡ false)
field_begins (scalar (single byte)) after good = (byte, after, refl, ground arith)
field_begins (scalar (double byte)) after good = (byte, after, refl, ground arith)
field_begins (scalar (class name)) after good = (b'L', _, refl, refl)
field_begins (arrays n s) after good = (b'[', _, refl, refl)

module _ (value : Bytes) where
  -- The rounds of the loop that do not fail.
  round-close :
      (fuel i s : ℕ) (acc : List DescriptorType) (after : Bytes)
      → drop i value ≡ b')' ∷ after
      → parse_parameters (suc fuel) value i s acc ≡ ok (acc, s, suc i)
  unfolding parse_parameters
  round-close fuel i s acc after at_i = rw (at_i, parse_parameters) refl

  round-read :
      (fuel i s byte : ℕ) (more : Bytes) (acc : List DescriptorType) (d : DescriptorType) (next : ℕ)
      → drop i value ≡ byte ∷ more
      → (byte == b')') ≡ false
      → parse_type value false i ≡ ok (d, next)
      → ltb max_jvm_parameter_slots (s + d.width) ≡ false
      → parse_parameters (suc fuel) value i s acc
        ≡ parse_parameters fuel value next (s + d.width) (acc ++ d ∷ [])
  unfolding parse_parameters
  round-read fuel i s byte more acc d next at_i starts read few =
      rw (at_i, starts, read, few, parse_parameters) refl

  -- The ways in which a round goes on or ends well.
  round_cases :
      (fuel i s : ℕ) (acc out : List DescriptorType) (sl e : ℕ)
      → parse_parameters (suc fuel) value i s acc ≡ ok (out, sl, e)
      → ((after : Bytes) × (drop i value ≡ b')' ∷ after) × (out ≡ acc) × (sl ≡ s) × (e ≡ suc i))
        ⊎ ((d : DescriptorType) × (next : ℕ) × (parse_type value false i ≡ ok (d, next))
            × (s + d.width ≤ max_jvm_parameter_slots)
            × (parse_parameters fuel value next (s + d.width) (acc ++ d ∷ []) ≡ ok (out, sl, e)))
  unfolding parse_parameters
  round_cases fuel i s acc out sl e h = elim (Bytes-cases (drop i value)) [
    | inl empty ↦ cc (rw (empty, parse_parameters) at h)
    | inr (byte, more, at_i) ↦ elim (Bool-cases (byte == b')')) [
      | inl close ↦
          let byte_is = (==_iff byte b')').0 close in
          let at_close : drop i value ≡ b')' ∷ more = at_i ∙ ap (λ b. b ∷ more) byte_is in
          let closed = round-close fuel i s acc more at_close in
          let pair = ok_injective (sym closed ∙ h) in
          inl (
            more,
            at_close,
            sym (ap (λ r. r.0) pair),
            sym (ap (λ r. r.1) pair),
            sym (ap (λ r. r.2) pair),
          )
      | inr starts ↦ elim (Result-cases (parse_type value false i)) [
        | inr (why, failed) ↦ cc (rw (at_i, starts, failed, parse_parameters) at h)
        | inl ((d, next), read) ↦ elim (Bool-cases (ltb max_jvm_parameter_slots (s + d.width))) [
          | inl many ↦ cc (rw (at_i, starts, read, many, parse_parameters) at h)
          | inr few ↦ inr (
            d,
            next,
            read,
            ltb-false→le _ _ few,
            sym (round-read fuel i s byte more acc d next at_i starts read few) ∙ h,
          )
        ]
      ]
    ]
  ]

  slots-cons : (f : FieldType) (ts : List FieldType) → slots (f ∷ ts) ≡ field_width f + slots ts
  unfolding slots
  slots-cons f ts = refl

  print_fields-append :
      (f : FieldType) (ts : List FieldType) (after : Bytes)
      → print_field f ++ print_fields ts after ≡ print_fields (f ∷ ts) after
  unfolding print_fields
  print_fields-append f ts after = refl

  -- The loop reads parameters of the grammar up to a `)`, and their slots are in range.
  pub parse_parameters_sound :
      (fuel i s : ℕ) (acc out : List DescriptorType) (sl e : ℕ)
      → i ≤ length value
      → s ≤ max_jvm_parameter_slots
      → parse_parameters fuel value i s acc ≡ ok (out, sl, e)
      → (ts : List FieldType) × (after : Bytes) × (drop i value ≡ print_fields ts (b')' ∷ after))
        × All IsField ts
        × (out ≡ acc ++ map describe ts)
        × (sl ≡ s + slots ts)
        × (sl ≤ max_jvm_parameter_slots)
        × (drop e value ≡ after)
        × (e ≤ length value)
  parse_parameters_sound zero i s acc out sl e inside few h = unfold parse_parameters in cc
  parse_parameters_sound (suc fuel) i s acc out sl e inside few h =
      elim (round_cases fuel i s acc out sl e h) [
        | inl (after, at_i, same, kept, ends) ↦
            let room = length-piece value (b')' ∷ []) after i at_i inside in
            (
              [],
              after,
              unfold print_fields in at_i,
              tt,
              same ∙ sym (append-nil acc),
              unfold slots in omega arith,
              omega arith,
              drop-piece value (b')' ∷ []) after i e at_i (omega arith),
              omega arith,
            )
        | inr (d, next, read, small, rest) ↦
            let (f, rest_at, placed, good, ends, found) =
              parse_field_sound value i d next inside read in
            let room = length-piece value (print_field f) rest_at i placed inside in
            let at_next = drop-piece value (print_field f) rest_at i next placed ends in
            let wide : d.width ≡ field_width f = ap (λ t. t.width) found ∙ width_describe f in
            let (ts, after, rest_is, all_good, all_out, sum, most, left, end_inside) =
              parse_parameters_sound fuel next (s + d.width) (acc ++ d ∷ []) out sl e (omega arith)
                small rest in
            let split : drop i value ≡ print_fields (f ∷ ts) (b')' ∷ after) =
              placed
              ∙ ap (λ r. print_field f ++ r) (sym at_next ∙ rest_is)
              ∙ print_fields-append f ts (b')' ∷ after) in
            (
              f ∷ ts,
              after,
              split,
              (good, all_good),
              all_out
                  ∙ append_assoc acc (d ∷ []) (map describe ts)
                  ∙ ap (λ t. acc ++ t ∷ map describe ts) found,
              omega (arith, slots-cons f ts),
              most,
              left,
              end_inside,
            )
      ]

  -- And it reads all of them.
  pub parse_parameters_complete :
      (ts : List FieldType) (fuel i s : ℕ) (acc : List DescriptorType) (after : Bytes)
      → i ≤ length value
      → drop i value ≡ print_fields ts (b')' ∷ after)
      → All IsField ts
      → s + slots ts ≤ max_jvm_parameter_slots
      → length ts < fuel
      → (e : ℕ) × (parse_parameters fuel value i s acc
          ≡ ok (acc ++ map describe ts, s + slots ts, e))
        × (drop e value ≡ after)
        × (e ≤ length value)
  unfolding print_fields slots
  parse_parameters_complete ts zero i s acc after inside at_i good few enough = absurd (omega arith)
  parse_parameters_complete [] (suc fuel) i s acc after inside at_i good few enough =
      let room = length-piece value (b')' ∷ []) after i at_i inside in
      let none_more : s + 0 ≡ s = omega arith in
      (
        suc i,
        round-close fuel i s acc after at_i ∙ rw (append-nil, none_more) refl,
        drop-piece value (b')' ∷ []) after i (suc i) at_i (omega arith),
        omega arith,
      )
  parse_parameters_complete (f ∷ ts) (suc fuel) i s acc after inside at_i (g, good) few enough =
      let read =
        parse_type_complete value f false i (print_fields ts (b')' ∷ after)) inside at_i g in
      let room =
        length-piece value (print_field f) (print_fields ts (b')' ∷ after)) i at_i inside in
      let next = i + length (print_field f) in
      let at_next = drop-piece value (print_field f) _ i next at_i refl in
      let (byte, more, first, other) = field_begins f (print_fields ts (b')' ∷ after)) g in
      let wide = width_describe f in
      let (e, rest, left, end_inside) =
        parse_parameters_complete ts fuel next (s + (describe f).width) (acc ++ describe f ∷ [])
          after (omega arith) at_next good (omega arith) (omega arith) in
      let small : s + (describe f).width ≤ max_jvm_parameter_slots = omega arith in
      let fits : ltb max_jvm_parameter_slots (s + (describe f).width) ≡ false = ground arith in
      let step =
        round-read fuel i s byte more acc (describe f) next (at_i ∙ first) other read fits in
      let sum : s + (describe f).width + slots ts ≡ s + (field_width f + slots ts) = omega arith in
      (
        e,
        step ∙ rest ∙ rw (sum, append_assoc acc (describe f ∷ []) (map describe ts)) refl,
        left,
        end_inside,
      )
