-- ===== src/ClassReader/Numbers.antt =====
-- The numbers that stand in a class file, as the reader reads them.
use shell_sight.Common.{
  ℕ, ◌+◌, ◌-◌, ◌/◌, ◌%◌, ◌<◌, ◌≡◌, refl, sym, ap, ◌∙◌, subst, arith, [], ◌∷◌, ◌++◌, length, drop,
  drop-drop, drop-length, length-drop, length-append, All,
}
use shell_sight.Common.Result.{ok, ◌>>=◌, >>=-eq-ok, ok_injective}
use shell_sight.Bytecode.Words.{Bytes}
use shell_sight.Mutf8.Encode.{IsByte}
use shell_sight.ClassReader.{ClassReader, remaining, read_bytes, through}
use shell_sight.ClassReader.Moves.{IsReader, read_bytes-iff_remain}

-- The bytes that the reader has left.
abbrev pub rest_of : ClassReader → Bytes
rest_of r = drop r.off r.bytes

abbrev pub IsByteReader : ClassReader → Type 0
IsByteReader r = IsReader r × All IsByte (rest_of r)

abbrev pub print1 : ℕ → Bytes
print1 v = v ∷ []

abbrev pub print2 : ℕ → Bytes
print2 v = (v / 256) ∷ (v % 256) ∷ []

abbrev pub print4 : ℕ → Bytes
print4 v = (v / 16_777_216) ∷ (v / 65_536 % 256) ∷ (v / 256 % 256) ∷ (v % 256) ∷ []

abbrev pub print8 : ℕ → Bytes
print8 v = print4 (v / 4_294_967_296) ++ print4 (v % 4_294_967_296)

-- A read has taken these bytes and left the reader behind them.
abbrev pub Took : Bytes → ClassReader → ClassReader → Type 0
Took piece r after = (rest_of r ≡ piece ++ rest_of after) × IsByteReader after

All-behind : (piece left : Bytes) → All IsByte (piece ++ left) → All IsByte left
All-behind [] left all = all
All-behind (x ∷ piece) left (b, all) = All-behind piece left all

pub All-before : (piece left : Bytes) → All IsByte (piece ++ left) → All IsByte piece
All-before [] left all = tt
All-before (x ∷ piece) left (b, all) = (b, All-before piece left all)

pub read_bytes_sound :
    (n : ℕ) (r : ClassReader) (slice : Bytes) (after : ClassReader)
    → IsByteReader r
    → read_bytes n r ≡ ok (slice, after)
    → (length slice ≡ n) × All IsByte slice × Took slice r after
read_bytes_sound n r slice after (good, all) h =
    let (enough, moved, size, split, good') = (read_bytes-iff_remain n r slice after good).0 h in
    let both = subst (All IsByte) split all in
    (size, All-before slice _ both, (split, (good', All-behind slice _ both)))

pub read_bytes_complete :
    (slice left : Bytes) (r : ClassReader)
    → IsByteReader r
    → rest_of r ≡ slice ++ left
    → (after : ClassReader) × (read_bytes (length slice) r ≡ ok (slice, after))
      × (rest_of after ≡ left)
      × IsByteReader after
unfolding remaining
read_bytes_complete slice left r (good, all) split =
    let after : ClassReader = record { bytes = r.bytes; off = r.off + length slice } in
    let sizes : length r.bytes - r.off ≡ length slice + length left =
      sym (length-drop r.off r.bytes) ∙ ap length split ∙ length-append slice left in
    let behind : rest_of after ≡ left =
      sym (drop-drop r.off (length slice) (r.off + length slice) r.bytes refl)
      ∙ ap (drop (length slice)) split
      ∙ drop-length slice left in
    let good' : IsReader after = omega arith in
    (
      after,
      (read_bytes-iff_remain (length slice) r slice after good).1
          (omega arith, refl, refl, split ∙ ap (λ l. slice ++ l) (sym behind), good'),
      behind,
      (
        good',
        subst (All IsByte) (sym behind) (All-behind slice left (subst (All IsByte) split all)),
      ),
    )

-- A number is printed in n bytes, and these bytes give it back.
pub record IsPrinting (n bound : ℕ) (value : Bytes → ℕ) (print : ℕ → Bytes) : Type 0 where
  pub reads : (b : Bytes) → length b ≡ n → All IsByte b → (print (value b) ≡ b) × (value b < bound)
  pub prints : (v : ℕ) → v < bound → (length (print v) ≡ n) × (value (print v) ≡ v)

module _ (n bound : ℕ) (value : Bytes → ℕ) (print : ℕ → Bytes)
    (p : IsPrinting n bound value print) where
  pub number_sound :
      (r : ClassReader) (v : ℕ) (after : ClassReader)
      → IsByteReader r
      → read_bytes n r >>= through value ≡ ok (v, after)
      → (v < bound) × Took (print v) r after
  number_sound r v after good h =
      let ((slice, after'), read, out) = >>=-eq-ok (read_bytes n r) (through value) h in
      let pair = ok_injective out in
      let (size, bytes, took) = read_bytes_sound n r slice after' good read in
      let (same, small) = p.reads slice size bytes in
      let is_v : value slice ≡ v = ap (λ q. q.0) pair in
      let is_after : after' ≡ after = ap (λ q. q.1) pair in
      (
        subst (λ w. w < bound) is_v small,
        subst (λ w. Took (print w) r after) is_v
            (subst (λ a. Took (print (value slice)) r a) is_after
              (subst (λ b. Took b r after') (sym same) took)),
      )

  pub number_complete :
      (v : ℕ) (left : Bytes) (r : ClassReader)
      → v < bound
      → IsByteReader r
      → rest_of r ≡ print v ++ left
      → (after : ClassReader) × (read_bytes n r >>= through value ≡ ok (v, after))
        × (rest_of after ≡ left)
        × IsByteReader after
  number_complete v left r small good split =
      let (size, back) = p.prints v small in
      let (after, read, behind, good') = read_bytes_complete (print v) left r good split in
      (
        after,
        ap (λ m. read_bytes m r >>= through value) (sym size)
            ∙ rw read (ap (λ w. ok (w, after)) back),
        behind,
        good',
      )
