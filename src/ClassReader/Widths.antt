-- ===== src/ClassReader/Widths.antt =====
-- The numbers of one, two, four and eight bytes.
use shell_sight.Common.{
  ℕ, ◌+◌, ◌*◌, ◌/◌, ◌%◌, ◌<◌, ◌≡◌, refl, ap, ◌∙◌, arith, [], ◌∷◌, ◌++◌, length, All, get_or,
}
use shell_sight.Common.Result.{ok}
use shell_sight.Bytecode.Words.{Bytes, be_uint16, be_uint32}
use shell_sight.Mutf8.Encode.{IsByte}
use shell_sight.ClassReader.{ClassReader, Read, be_uint64, u1, u2, u4, u8}
use shell_sight.ClassReader.Numbers.{
  rest_of, IsByteReader, print1, print2, print4, print8, Took, IsPrinting, number_sound,
  number_complete,
}

printing1 : IsPrinting 1 256 (λ slice. get_or slice 0 0) print1
printing1 = record { reads = reads1; prints = λ v small. (refl, refl) }
  where
    reads1 :
        (b : Bytes)
        → length b ≡ 1
        → All IsByte b
        → (print1 (get_or b 0 0) ≡ b) × (get_or b 0 0 < 256)
    reads1 [] size all = absurd (omega arith)
    reads1 (x ∷ []) size (b, all) = (refl, b)
    reads1 (x ∷ y ∷ more) size all = absurd (omega arith)

reads2 :
    (b : Bytes) → length b ≡ 2 → All IsByte b → (print2 (be_uint16 b) ≡ b) × (be_uint16 b < 65_536)
unfolding be_uint16
reads2 [] size all = absurd (omega arith)
reads2 (x ∷ []) size all = absurd (omega arith)
reads2 (x ∷ y ∷ []) size (a, (b, all)) = (ground arith, omega arith)
reads2 (x ∷ y ∷ z ∷ more) size all = absurd (omega arith)

reads4 :
    (b : Bytes)
    → length b ≡ 4
    → All IsByte b
    → (print4 (be_uint32 b) ≡ b) × (be_uint32 b < 4_294_967_296)
unfolding be_uint32
reads4 (x ∷ y ∷ z ∷ w ∷ []) size (a, (b, (c, (d, all)))) = (ground arith, omega arith)
reads4 (x ∷ y ∷ z ∷ w ∷ v ∷ more) size all = absurd (omega arith)
reads4 [] size all = absurd (omega arith)
reads4 (x ∷ []) size all = absurd (omega arith)
reads4 (x ∷ y ∷ []) size all = absurd (omega arith)
reads4 (x ∷ y ∷ z ∷ []) size all = absurd (omega arith)

prints2 : (v : ℕ) → v < 65_536 → (length (print2 v) ≡ 2) × (be_uint16 (print2 v) ≡ v)
unfolding be_uint16
prints2 v small = (refl, omega arith)

prints4 : (v : ℕ) → v < 4_294_967_296 → (length (print4 v) ≡ 4) × (be_uint32 (print4 v) ≡ v)
unfolding be_uint32
prints4 v small = (refl, omega arith)

prints8 :
    (v : ℕ) → v < 18_446_744_073_709_551_616 → (length (print8 v) ≡ 8) × (be_uint64 (print8 v) ≡ v)
unfolding be_uint64
prints8 v small =
    let (_, high) = prints4 (v / 4_294_967_296) (omega arith) in
    let (_, low) = prints4 (v % 4_294_967_296) (omega arith) in (refl, omega arith)

reads8 :
    (b : Bytes)
    → length b ≡ 8
    → All IsByte b
    → (print8 (be_uint64 b) ≡ b) × (be_uint64 b < 18_446_744_073_709_551_616)
reads8 (a ∷ b ∷ c ∷ d ∷ e ∷ f ∷ g ∷ h ∷ []) size (a', (b', (c', (d', all)))) =
    let (high, high_small) = reads4 (a ∷ b ∷ c ∷ d ∷ []) refl (a', (b', (c', (d', tt)))) in
    let (low, low_small) = reads4 (e ∷ f ∷ g ∷ h ∷ []) refl all in
    let whole = halves a b c d e f g h in
    let first : be_uint64 (a ∷ b ∷ c ∷ d ∷ e ∷ f ∷ g ∷ h ∷ []) / 4_294_967_296
        ≡ be_uint32 (a ∷ b ∷ c ∷ d ∷ []) =
      omega arith in
    let second : be_uint64 (a ∷ b ∷ c ∷ d ∷ e ∷ f ∷ g ∷ h ∷ []) % 4_294_967_296
        ≡ be_uint32 (e ∷ f ∷ g ∷ h ∷ []) =
      omega arith in
    (
      ap (λ w. print4 w ++ print4 (be_uint64 (a ∷ b ∷ c ∷ d ∷ e ∷ f ∷ g ∷ h ∷ []) % 4_294_967_296))
            first
          ∙ ap (λ w. print4 (be_uint32 (a ∷ b ∷ c ∷ d ∷ [])) ++ print4 w) second
          ∙ ap (λ l. l ++ print4 (be_uint32 (e ∷ f ∷ g ∷ h ∷ []))) high
          ∙ ap (λ l. a ∷ b ∷ c ∷ d ∷ l) low,
      omega arith,
    )
  where
    halves :
        (a b c d e f g h : ℕ)
        → be_uint64 (a ∷ b ∷ c ∷ d ∷ e ∷ f ∷ g ∷ h ∷ [])
          ≡ be_uint32 (a ∷ b ∷ c ∷ d ∷ []) * 4_294_967_296 + be_uint32 (e ∷ f ∷ g ∷ h ∷ [])
    halves a b c d e f g h = unfold be_uint64 in omega arith
reads8 [] size all = absurd (omega arith)
reads8 (_ ∷ []) size all = absurd (omega arith)
reads8 (_ ∷ _ ∷ []) size all = absurd (omega arith)
reads8 (_ ∷ _ ∷ _ ∷ []) size all = absurd (omega arith)
reads8 (_ ∷ _ ∷ _ ∷ _ ∷ []) size all = absurd (omega arith)
reads8 (_ ∷ _ ∷ _ ∷ _ ∷ _ ∷ []) size all = absurd (omega arith)
reads8 (_ ∷ _ ∷ _ ∷ _ ∷ _ ∷ _ ∷ []) size all = absurd (omega arith)
reads8 (_ ∷ _ ∷ _ ∷ _ ∷ _ ∷ _ ∷ _ ∷ []) size all = absurd (omega arith)
reads8 (_ ∷ _ ∷ _ ∷ _ ∷ _ ∷ _ ∷ _ ∷ _ ∷ _ ∷ more) size all = absurd (omega arith)

-- What a read of a number has read.
pub u1_sound :
    (r : ClassReader) (v : ℕ) (after : ClassReader)
    → IsByteReader r
    → u1 r ≡ ok (v, after)
    → (v < 256) × Took (print1 v) r after
unfolding u1
u1_sound = number_sound 1 256 _ print1 printing1

pub u2_sound :
    (r : ClassReader) (v : ℕ) (after : ClassReader)
    → IsByteReader r
    → u2 r ≡ ok (v, after)
    → (v < 65_536) × Took (print2 v) r after
unfolding u2
u2_sound = number_sound 2 65_536 be_uint16 print2 (record { reads = reads2; prints = prints2 })

pub u4_sound :
    (r : ClassReader) (v : ℕ) (after : ClassReader)
    → IsByteReader r
    → u4 r ≡ ok (v, after)
    → (v < 4_294_967_296) × Took (print4 v) r after
unfolding u4
u4_sound =
    number_sound 4 4_294_967_296 be_uint32 print4 (record { reads = reads4; prints = prints4 })

pub u8_sound :
    (r : ClassReader) (v : ℕ) (after : ClassReader)
    → IsByteReader r
    → u8 r ≡ ok (v, after)
    → (v < 18_446_744_073_709_551_616) × Took (print8 v) r after
unfolding u8
u8_sound =
    number_sound 8 18_446_744_073_709_551_616 be_uint64 print8
      (record { reads = reads8; prints = prints8 })

-- A printed number is read.
abbrev pub Finds : (ClassReader → Read ℕ) → (ℕ → Bytes) → ℕ → Type 0
Finds read print v =
    (left : Bytes) (r : ClassReader)
    → IsByteReader r
    → rest_of r ≡ print v ++ left
    → (after : ClassReader) × (read r ≡ ok (v, after)) × (rest_of after ≡ left) × IsByteReader after

pub u1_complete : (v : ℕ) → v < 256 → Finds u1 print1 v
unfolding u1
u1_complete v small left r = number_complete 1 256 _ print1 printing1 v left r small

pub u2_complete : (v : ℕ) → v < 65_536 → Finds u2 print2 v
unfolding u2
u2_complete v small left r =
    number_complete 2 65_536 be_uint16 print2 (record { reads = reads2; prints = prints2 }) v left r
      small

pub u4_complete : (v : ℕ) → v < 4_294_967_296 → Finds u4 print4 v
unfolding u4
u4_complete v small left r =
    number_complete 4 4_294_967_296 be_uint32 print4 (record { reads = reads4; prints = prints4 }) v
      left r small

pub u8_complete : (v : ℕ) → v < 18_446_744_073_709_551_616 → Finds u8 print8 v
unfolding u8
u8_complete v small left r =
    number_complete 8 18_446_744_073_709_551_616 be_uint64 print8
      (record { reads = reads8; prints = prints8 }) v left r small
