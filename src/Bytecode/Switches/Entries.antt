-- ===== src/Bytecode/Switches/Entries.antt =====
-- bytecode.go, `decodeSwitchInstruction`: the loops over the entries against the layout.
use shell_sight.Common.{
  ℕ, zero, suc, ◌+◌, pred, ◌*◌, ◌≤◌, ◌<◌, true, not, ◌&&◌, List, [], ◌∷◌, length, ◌≡◌, refl, ap,
  arith, ltb,
}
use shell_sight.Common.Int.{ℤ, leb_ℤ, ◌<ℤ◌}
use shell_sight.Common.Result.{ok, >>=-eq-ok, map_err, map_err-eq-ok, guard-eq-ok}
use shell_sight.Bytecode.Words.{
  Bytes, max_uint32, to_int32, read_int32, int_or_zero, resolve_absolute_target,
}
use shell_sight.Bytecode.Decode.{bad_entry, keys_not_increasing, table_targets, lookup_targets}
use shell_sight.Bytecode.Jumps.{word_at, long_jump, read_int32-eq-some}
use shell_sight.Bytecode.Shapes.{TableTargets, PairTargets, AreGrowing}

module _ (code : Bytes) (offset : ℕ) (short : length code ≤ max_uint32)
    (inside : offset ≤ max_uint32) where
  word_read :
      (p : ℕ) → p + 4 ≤ length code → int_or_zero (read_int32 code p) ≡ to_int32 (word_at code p)
  word_read p h = rw (read_int32-eq-some code p h short)

  pub table_targets_sound :
      (n i p : ℕ) (ts : List ℕ)
      → p + n * 4 ≤ length code
      → table_targets n code offset i p ≡ ok ts
      → (length ts ≡ n) × TableTargets code offset p ts
  unfolding table_targets
  table_targets_sound zero i p ts h e = let none_left : [] ≡ ts = cc in rw (← none_left) (refl, tt)
  table_targets_sound (suc n) i p ts h e =
      let (target, te, e1) =
        >>=-eq-ok
          (map_err (bad_entry i offset)
            (resolve_absolute_target offset (int_or_zero (read_int32 code p))))
          _ e in
      let (rest, re, e2) = >>=-eq-ok (table_targets n code offset (i + 1) (p + 4)) _ e1 in
      let (size, more) = table_targets_sound n (i + 1) (p + 4) rest (omega arith) re in
      let jump =
        (long_jump offset (word_at code p) target inside).0
          (rw (word_read p (omega arith)) at (map_err-eq-ok _ _ te)) in
      let is : target ∷ rest ≡ ts = cc in rw (← is) (ap suc size, (jump, more))

  pub table_targets_complete :
      (i p : ℕ) (ts : List ℕ)
      → p + length ts * 4 ≤ length code
      → TableTargets code offset p ts
      → table_targets (length ts) code offset i p ≡ ok ts
  unfolding table_targets
  table_targets_complete i p [] h e = refl
  table_targets_complete i p (t ∷ ts) h (jump, more) = rw (
    word_read p (omega arith),
    (long_jump offset (word_at code p) t inside).1 jump,
    table_targets_complete (i + 1) (p + 4) ts (omega arith) more,
  )

  key_grows :
      (i : ℕ) (previous key : ℤ)
      → (0 < i → previous <ℤ key)
      → not (ltb 0 i && leb_ℤ key previous) ≡ true
  key_grows i previous key h = ground arith

  growing_cons :
      (n p : ℕ)
      → (0 < n → to_int32 (word_at code p) <ℤ to_int32 (word_at code (p + 8)))
      → AreGrowing (pred n) code (p + 8)
      → AreGrowing n code p
  growing_cons zero p less rest = tt
  growing_cons (suc n) p less rest = (less (omega arith), rest)

  growing_head :
      (n p : ℕ)
      → AreGrowing n code p
      → 0 < n
      → to_int32 (word_at code p) <ℤ to_int32 (word_at code (p + 8))
  growing_head zero p g h = elim h [ ]
  growing_head (suc n) p (less, rest) h = less

  growing_tail : (n p : ℕ) → AreGrowing n code p → AreGrowing (pred n) code (p + 8)
  growing_tail zero p g = tt
  growing_tail (suc n) p (less, rest) = rest

  pub lookup_targets_sound :
      (n i : ℕ) (previous : ℤ) (p : ℕ) (ts : List ℕ)
      → p + n * 8 ≤ length code
      → lookup_targets n code offset i previous p ≡ ok ts
      → (length ts ≡ n)
        × PairTargets code offset p ts
        × (0 < i → 0 < n → previous <ℤ to_int32 (word_at code p))
        × AreGrowing (pred n) code p
  unfolding lookup_targets
  lookup_targets_sound zero i previous p ts h e =
      let none_left : [] ≡ ts = cc in rw (← none_left) (refl, tt, (λ a b. elim b [ ]), tt)
  lookup_targets_sound (suc n) i previous p ts h e =
      let key = int_or_zero (read_int32 code p) in
      let (grows, e0) =
        guard-eq-ok (not (ltb 0 i && leb_ℤ key previous)) (keys_not_increasing i) _ e in
      let (target, te, e1) =
        >>=-eq-ok
          (map_err (bad_entry i offset)
            (resolve_absolute_target offset (int_or_zero (read_int32 code (p + 4)))))
          _ e0 in
      let (rest, re, e2) = >>=-eq-ok (lookup_targets n code offset (i + 1) key (p + 8)) _ e1 in
      let (size, more, next_grows, growing) =
        lookup_targets_sound n (i + 1) key (p + 8) rest (omega arith) re in
      let jump =
        (long_jump offset (word_at code (p + 4)) target inside).0
          (rw (word_read (p + 4) (omega arith)) at (map_err-eq-ok _ _ te)) in
      let is : target ∷ rest ≡ ts = cc in
      let key_is : key ≡ to_int32 (word_at code p) = word_read p (omega arith) in
      rw (← is) (
        ap suc size,
        (jump, more),
        (λ a b. rw (← key_is) (ground (arith, grows, a))),
        growing_cons n p (λ b. rw (← key_is) (next_grows (omega arith) b)) growing,
      )

  pub lookup_targets_complete :
      (i : ℕ) (previous : ℤ) (p : ℕ) (ts : List ℕ)
      → p + length ts * 8 ≤ length code
      → PairTargets code offset p ts
      → (0 < i → 0 < length ts → previous <ℤ to_int32 (word_at code p))
      → AreGrowing (pred (length ts)) code p
      → lookup_targets (length ts) code offset i previous p ≡ ok ts
  unfolding lookup_targets
  lookup_targets_complete i previous p [] h e first growing = refl
  lookup_targets_complete i previous p (t ∷ ts) h (jump, more) first growing =
      let accepted : (not (ltb 0 i && leb_ℤ (to_int32 (word_at code p)) previous)) ≡ true =
        key_grows i previous (to_int32 (word_at code p)) (λ a. first a (omega arith)) in
      rw (
        word_read p (omega arith),
        word_read (p + 4) (omega arith),
        accepted,
        (long_jump offset (word_at code (p + 4)) t inside).1 jump,
        lookup_targets_complete (i + 1) (to_int32 (word_at code p)) (p + 8) ts (omega arith) more
            (λ _ b. growing_head (length ts) p growing b) (growing_tail (length ts) p growing),
      )
