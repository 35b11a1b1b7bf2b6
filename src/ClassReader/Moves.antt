-- ===== src/ClassReader/Moves.antt =====
-- How reads move the reader, and how they combine.
use shell_sight.Common.{
  ℕ, ◌+◌, ◌≤◌, ◌≡◌, ◌↔◌, refl, sym, ap, ◌∙◌, arith, [], ◌∷◌, ◌++◌, length, take, drop, drop-drop,
  length-take, length-drop, take-append-drop,
}
use shell_sight.Common.Result.{ok}
use shell_sight.Bytecode.Words.{Bytes}
use shell_sight.ClassReader.{ClassReader, remaining, read_bytes}

abbrev pub IsReader : ClassReader → Type 0
IsReader r = r.off ≤ length r.bytes

read_bytes_cases :
    (n : ℕ) (r : ClassReader) (slice : Bytes) (after : ClassReader)
    → read_bytes n r ≡ ok (slice, after)
    → (n ≤ remaining r)
      × (take n (drop r.off r.bytes) ≡ slice)
      × (◌≡◌ {A = ClassReader} record { bytes = r.bytes; off = r.off + n } after)
unfolding read_bytes
read_bytes_cases n r slice after h = ground arith

read_bytes_ok :
    (n : ℕ) (r : ClassReader)
    → n ≤ remaining r
    → read_bytes n r ≡ ok (take n (drop r.off r.bytes), record { bytes = r.bytes; off = r.off + n })
unfolding read_bytes
read_bytes_ok n r enough = ground arith

take-split :
    (n : ℕ) (s slice left : Bytes) → s ≡ slice ++ left → length slice ≡ n → take n s ≡ slice
take-split n s [] left e size = rw (sym size) refl
take-split n s (x ∷ slice) left e size =
    rw (sym size, e) (ap (◌∷◌ x) (take-split (length slice) (slice ++ left) slice left refl refl))

pub read_bytes-iff_remain :
    (n : ℕ) (r : ClassReader) (slice : Bytes) (after : ClassReader)
    → IsReader r
    → (read_bytes n r ≡ ok (slice, after)) ↔ (
        (n ≤ remaining r)
        × (after ≡ record { bytes = r.bytes; off = r.off + n })
        × (length slice ≡ n)
        × (drop r.off r.bytes ≡ slice ++ drop after.off after.bytes)
        × IsReader after)
unfolding remaining
read_bytes-iff_remain n r slice after good = (
  λ h.
      let (enough, cut, same) = read_bytes_cases n r slice after h in
      let left : drop n (drop r.off r.bytes) ≡ drop after.off after.bytes =
        drop-drop r.off n (r.off + n) r.bytes refl ∙ ap (λ r. drop r.off r.bytes) same in
      let sizes = ap length cut in
      let size = length-take n (drop r.off r.bytes) in
      let rest = length-drop r.off r.bytes in
      (
        enough,
        sym same,
        omega arith,
        sym (take-append-drop n (drop r.off r.bytes)) ∙ rw (cut, left) refl,
        rw (sym same) (omega arith),
      ),
  λ (enough, same, size, split, good').
      read_bytes_ok n r enough
      ∙ rw (take-split n (drop r.off r.bytes) slice _ split size, same) refl,
)
