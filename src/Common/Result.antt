-- ===== src/Common/Result.antt =====
-- Fallible results: Go's `(value, error)` with one of the two set.
use mathlib.Core.Path.{◌≡◌, refl}
use mathlib.Core.Bool.{Bool, true, false}
use mathlib.Core.Logic.{◌⊎◌, inl, inr}
use mathlib.Core.Option.{Option, none, some}

pub data Result (E A : Type 0) : Type 0 where
  ok : A → Result E A
  err : E → Result E A

module _ {E : Type 0} where
  infixl 5 ◌>>=◌ ◌>>◌
  abbrev pub ◌>>=◌ : {A B : Type 0} → Result E A → (A → Result E B) → Result E B
  err reason >>= _ = err reason
  ok value >>= next = next value

  abbrev pub ◌>>◌ : {B : Type 0} → Result E (Unit {0}) → Result E B → Result E B
  check >> rest = check >>= λ done. rest

  -- `if !ok { return err }` for a value that comes with a flag.
  abbrev pub or_err : {A : Type 0} → Option A → E → Result E A
  or_err (some value) _ = ok value
  or_err none reason = err reason

  abbrev pub map_err : {D A : Type 0} → (D → E) → Result D A → Result E A
  map_err wrap (err reason) = err (wrap reason)
  map_err wrap (ok value) = ok value

  -- `if !test { return err }`.
  abbrev pub guard : Bool → E → Result E (Unit {0})
  guard false reason = err reason
  guard true _ = ok tt

  -- What a chain that succeeds went through.
  pub >>=-eq-ok :
      {A B : Type 0} (first : Result E A) (next : A → Result E B) {out : B}
      → ◌≡◌ {A = Result E B} (first >>= next) (ok out)
      → (value : A) × (first ≡ ok value) × (next value ≡ ok out)
  >>=-eq-ok (err reason) next returned = cc
  >>=-eq-ok (ok value) next returned = (value, refl, returned)

  pub guard-eq-ok :
      {B : Type 0} (test : Bool) (reason : E) (rest : Result E B) {out : B}
      → ◌≡◌ {A = Result E B} (guard test reason >> rest) (ok out)
      → (test ≡ true) × (rest ≡ ok out)
  guard-eq-ok false reason rest returned = cc
  guard-eq-ok true reason rest returned = (refl, returned)

  -- To split on a computed result and keep the equation.
  pub Result-cases :
      {A : Type 0} (m : Result E A) → ((a : A) × (m ≡ ok a)) ⊎ ((e : E) × (m ≡ err e))
  Result-cases (ok a) = inl (a, refl)
  Result-cases (err e) = inr (e, refl)

pub map_err-eq-ok :
    {D E A : Type 0} (w : D → E) (m : Result D A) {a : A} → map_err w m ≡ ok a → m ≡ ok a
map_err-eq-ok w (ok b) h = cc
map_err-eq-ok w (err d) h = cc

pub ok_injective : {E A : Type 0} {a b : A} → ◌≡◌ {A = Result E A} (ok a) (ok b) → a ≡ b
ok_injective h = cc
