-- ===== src/Mutf8/Exact.antt =====
-- The decoder accepts exactly the modified UTF-8 of texts.
use shell_sight.Common.{
  ℕ, ◌+◌, ◌≡◌, ◌↔◌, inl, refl, sym, ap, ◌∙◌, subst, List, [], length, arith, All,
}
use shell_sight.Common.Result.{ok}
use shell_sight.Bytecode.Words.{Bytes}
use shell_sight.Mutf8.{decode_from, decode_modified_utf8}
use shell_sight.Mutf8.Encode.{IsByte, IsScalarValue, encode}
use shell_sight.Mutf8.Runs.{decode_from_sound}
use shell_sight.Mutf8.Rounds.{decode_from_complete}

-- A list of bytes is decoded, to a text, exactly when it is the modified UTF-8 of that text and the
-- text has Unicode scalar values only.
pub decode_modified_utf8-iff_encode :
    (bytes : Bytes) (text : List ℕ)
    → All IsByte bytes
    → (decode_modified_utf8 bytes ≡ ok text) ↔ (All IsScalarValue text × (bytes ≡ encode text))
unfolding decode_modified_utf8
decode_modified_utf8-iff_encode bytes text all = (
  λ h.
      let (cs, same, scalars, rest) =
        decode_from_sound (length bytes + 1) bytes 0 0 [] text (inl refl) all h in
      (subst (All IsScalarValue) (sym same) scalars, rest ∙ ap encode (sym same)),
  λ (scalars, is).
      ap (λ b. decode_from (length b + 1) b 0 0 []) is
      ∙ decode_from_complete text (length (encode text) + 1) 0 [] scalars (omega arith),
)
