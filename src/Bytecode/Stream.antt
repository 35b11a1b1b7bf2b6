-- ===== src/Bytecode/Stream.antt =====
-- bytecode.go, `decodeInstructions`: the loop against the relation of one instruction after another.
use native.Mathlib.Nat.{add-zero, zero-add}
use shell_sight.Common.{
  ℕ, zero, suc, ◌+◌, ◌-◌, ◌≤◌, ◌<◌, true, false, List, [], ◌∷◌, ◌++◌, length, ◌≡◌, ◌≢◌, refl, sym,
  ap, ◌∙◌, arith, ltb, Bool-cases, inl, inr, append-nil, append_assoc, length-append, lt→ltb,
  ltb→lt, ltb-false→le,
}
use shell_sight.Common.Int.{ℤ, pos, negsuc}
use shell_sight.Common.Result.{ok, err, Result-cases}
use shell_sight.Bytecode.Words.{Bytes, max_uint32}
use shell_sight.Bytecode.Decode.{
  Instruction, DecodeError, out_of_fuel, instruction_limit, decoding, decode_one, limit_reached,
  decode_from, decode_instructions_counted, decode_instructions,
}
use shell_sight.Bytecode.Fits.{decode_one-Fits}

-- The instructions that stand in the code from `offset` to its end.
pub data Stream (code : Bytes) : ℕ → List Instruction → Type 0 where
  done : {offset : ℕ} → length code ≤ offset → Stream code offset []
  step :
      {offset next : ℕ} {ins : Instruction} {rest : List Instruction}
      → offset < length code
      → decode_one code offset ≡ ok (ins, next)
      → Stream code next rest
      → Stream code offset (ins ∷ rest)

-- The limit lets the loop decode `count` instructions.
abbrev pub Allows : ℤ → ℕ → Type 0
Allows (pos l) count = count ≤ l
Allows (negsuc l) count = count ≡ 0

Allows-none : (limit : ℤ) → Allows limit 0
Allows-none (pos l) = omega arith
Allows-none (negsuc l) = refl

Allows-le : (limit : ℤ) (m n : ℕ) → m ≤ n → Allows limit n → Allows limit m
Allows-le (pos l) m n h a = omega arith
Allows-le (negsuc l) m n h a = omega arith

allowed : (limit : ℤ) (m n : ℕ) → Allows limit (m + suc n) → limit_reached limit m ≡ false
unfolding limit_reached
allowed (pos l) m n a = ground arith
allowed (negsuc l) m n a = ground arith

-- Below the limit there is room for one more.
Allows-more : (limit : ℤ) (m : ℕ) → limit_reached limit m ≡ false → Allows limit (suc m)
unfolding limit_reached
Allows-more (pos l) m room = ground arith
Allows-more (negsuc l) m room = cc

shift : (m n : ℕ) → suc m + n ≡ m + suc n
shift m n = omega arith

module _ (code : Bytes) (limit : ℤ) where
  -- The four ways through one round of the loop.
  round-end :
      (fuel offset : ℕ) (acc : List Instruction)
      → ltb offset (length code) ≡ false
      → decode_from (suc fuel) code limit offset acc ≡ (ok acc, length acc)
  unfolding decode_from
  round-end fuel offset acc e = rw (e, decode_from)

  round-limit :
      (fuel offset : ℕ) (acc : List Instruction)
      → ltb offset (length code) ≡ true
      → limit_reached limit (length acc) ≡ true
      → decode_from (suc fuel) code limit offset acc
        ≡ (err (instruction_limit limit offset), length acc)
  unfolding decode_from
  round-limit fuel offset acc e l = rw (e, l, decode_from)

  round-err :
      (fuel offset : ℕ) (acc : List Instruction) {why : DecodeError}
      → ltb offset (length code) ≡ true
      → limit_reached limit (length acc) ≡ false
      → decode_one code offset ≡ err why
      → decode_from (suc fuel) code limit offset acc ≡ (err (decoding why), length acc)
  unfolding decode_from
  round-err fuel offset acc e l d = rw (e, l, d, decode_from)

  round-ok :
      (fuel offset : ℕ) (acc : List Instruction) {ins : Instruction} {next : ℕ}
      → ltb offset (length code) ≡ true
      → limit_reached limit (length acc) ≡ false
      → decode_one code offset ≡ ok (ins, next)
      → decode_from (suc fuel) code limit offset acc
        ≡ decode_from fuel code limit next (acc ++ ins ∷ [])
  unfolding decode_from
  round-ok fuel offset acc e l d = rw (e, l, d, decode_from)

  decode_from_sound :
      (fuel offset : ℕ) (acc out : List Instruction)
      → Allows limit (length acc)
      → (decode_from fuel code limit offset acc).0 ≡ ok out
      → (rest : List Instruction) × (out ≡ acc ++ rest)
        × Stream code offset rest
        × Allows limit (length out)
  decode_from_sound zero offset acc out a h = unfold decode_from in cc
  decode_from_sound (suc fuel) offset acc out a h = elim (Bool-cases (ltb offset (length code))) [
    | inr stop ↦
        let e : acc ≡ out = cc (rw (round-end fuel offset acc stop) at h) in
        ([], rw append-nil (sym e), done (ltb-false→le _ _ stop), rw (← e) a)
    | inl more ↦ elim (Bool-cases (limit_reached limit (length acc))) [
      | inl full ↦ cc (rw (round-limit fuel offset acc more full) at h)
      | inr room ↦ elim (Result-cases (decode_one code offset)) [
        | inr (why, d) ↦ cc (rw (round-err fuel offset acc more room d) at h)
        | inl ((ins, next), d) ↦
            let grown : length (acc ++ ins ∷ []) ≡ suc (length acc) =
              omega (arith, length-append acc (ins ∷ [])) in
            let (rest, e, s, b) =
              decode_from_sound fuel next (acc ++ ins ∷ []) out
                (rw grown (Allows-more limit (length acc) room))
                (rw (round-ok fuel offset acc more room d) at h) in
            (ins ∷ rest, e ∙ append_assoc acc (ins ∷ []) rest, step (ltb→lt _ _ more) d s, b)
      ]
    ]
  ]

  decode_from_complete :
      {rest : List Instruction} (fuel offset : ℕ) (acc : List Instruction)
      → Stream code offset rest
      → length code - offset < fuel
      → Allows limit (length acc + length rest)
      → decode_from fuel code limit offset acc ≡ (ok (acc ++ rest), length acc + length rest)
  decode_from_complete zero offset acc s e a = elim e [ ]
  decode_from_complete (suc fuel) offset acc (done h) e a =
      round-end fuel offset acc (ground arith) ∙ rw (append-nil, add-zero)
  decode_from_complete (suc fuel) offset acc (step {next} {ins} {rest} h d s) e a =
      let fits = decode_one-Fits code offset d in
      let room : limit_reached limit (length acc) ≡ false =
        allowed limit (length acc) (length rest) a in
      let grown : length (acc ++ ins ∷ []) ≡ suc (length acc) =
        omega (arith, length-append acc (ins ∷ [])) in
      round-ok fuel offset acc (lt→ltb _ _ h) room d
      ∙ decode_from_complete fuel next (acc ++ ins ∷ []) s (omega arith)
          (rw grown (rw (shift (length acc) (length rest)) a))
      ∙ rw (grown, append_assoc, shift (length acc) (length rest))

  decode_from-in_fuel :
      (fuel offset : ℕ) (acc : List Instruction)
      → length code - offset < fuel
      → (decode_from fuel code limit offset acc).0 ≢ err out_of_fuel
  decode_from-in_fuel zero offset acc e = elim e [ ]
  decode_from-in_fuel (suc fuel) offset acc e = elim (Bool-cases (ltb offset (length code))) [
    | inr stop ↦ rw (round-end fuel offset acc stop) (λ h. cc)
    | inl more ↦ elim (Bool-cases (limit_reached limit (length acc))) [
      | inl full ↦ rw (round-limit fuel offset acc more full) (λ h. cc)
      | inr room ↦ elim (Result-cases (decode_one code offset)) [
        | inr (why, d) ↦ rw (round-err fuel offset acc more room d) (λ h. cc)
        | inl ((ins, next), d) ↦
            let fits = decode_one-Fits code offset d in
            let before = ltb→lt _ _ more in
            rw (round-ok fuel offset acc more room d)
              (decode_from-in_fuel fuel next (acc ++ ins ∷ []) (omega arith))
      ]
    ]
  ]

  -- The loop decodes no more instructions than the limit allows, whether it fails or not.
  decode_from-count :
      (fuel offset : ℕ) (acc : List Instruction)
      → Allows limit (length acc)
      → Allows limit (decode_from fuel code limit offset acc).1
  decode_from-count zero offset acc a = unfold decode_from in a
  decode_from-count (suc fuel) offset acc a = elim (Bool-cases (ltb offset (length code))) [
    | inr stop ↦ rw (round-end fuel offset acc stop) a
    | inl more ↦ elim (Bool-cases (limit_reached limit (length acc))) [
      | inl full ↦ rw (round-limit fuel offset acc more full) a
      | inr room ↦ elim (Result-cases (decode_one code offset)) [
        | inr (why, d) ↦ rw (round-err fuel offset acc more room d) a
        | inl ((ins, next), d) ↦
            let grown : length (acc ++ ins ∷ []) ≡ suc (length acc) =
              omega (arith, length-append acc (ins ∷ [])) in
            rw (round-ok fuel offset acc more room d) (
              decode_from-count fuel next (acc ++ ins ∷ [])
                (rw grown (Allows-more limit (length acc) room)))
      ]
    ]
  ]

-- On code whose offsets fit in 32 bits, decoding succeeds with a list of instructions exactly when the
-- list is the stream of instructions that stand in the code from offset 0 to its end and the limit
-- allows so many.
pub decode_instructions-iff_Stream :
    (code : Bytes) (limit : ℤ) (out : List Instruction)
    → length code ≤ max_uint32
    → (decode_instructions code limit ≡ ok out → Stream code 0 out × Allows limit (length out))
      × (Stream code 0 out × Allows limit (length out) → decode_instructions code limit ≡ ok out)
unfolding decode_instructions decode_instructions_counted
decode_instructions-iff_Stream code limit out short =
    let fits : ltb max_uint32 (length code) ≡ false = ground arith in
    (
      λ h.
          let (rest, e, s, a) =
            decode_from_sound code limit (length code + 1) 0 [] out (Allows-none limit)
              (rw (fits, decode_instructions, decode_instructions_counted) at h) in
          (rw e s, a),
      λ h.
          rw (fits, decode_instructions, decode_instructions_counted)
            (ap (λ r. r.0)
              (decode_from_complete code limit (length code + 1) 0 [] h.0 (omega arith)
                (rw zero-add h.1))),
    )

-- The loop ends by itself: no code and no limit use up the rounds that it is given.
pub decode_instructions-in_fuel :
    (code : Bytes) (limit : ℤ) → decode_instructions code limit ≢ err out_of_fuel
unfolding decode_instructions decode_instructions_counted
decode_instructions-in_fuel code limit = elim (Bool-cases (ltb max_uint32 (length code))) [
  | inl long ↦ rw (long, decode_instructions, decode_instructions_counted) (λ h. cc)
  | inr short ↦
      rw (short, decode_instructions, decode_instructions_counted)
        (decode_from-in_fuel code limit (length code + 1) 0 [] (omega arith))
]

-- The decoder never decodes more instructions than its limit, also where it fails.
pub decode_instructions_counted-limit :
    (code : Bytes) (limit : ℤ) → Allows limit (decode_instructions_counted code limit).1
unfolding decode_instructions_counted
decode_instructions_counted-limit code limit = elim (Bool-cases (ltb max_uint32 (length code))) [
  | inl long ↦ rw (long, decode_instructions_counted) (Allows-none limit)
  | inr short ↦
      rw (short, decode_instructions_counted)
        (decode_from-count code limit (length code + 1) 0 [] (Allows-none limit))
]
