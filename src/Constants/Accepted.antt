-- ===== src/Constants/Accepted.antt =====
-- `validateConstantPoolReferences` asks of one constant what the format asks.
use shell_sight.Common.{
  ℕ, ◌≤◌, ◌≡◌, ◌≢◌, ◌↔◌, ◌⊎◌, inl, inr, refl, sym, ap, ◌∙◌, subst, arith, true, false, not, ◌&&◌,
  get_elem?, Option, some, ltb, ◌==◌, if◌then◌else◌,
}
use shell_sight.Common.Result.{ok, err, ◌>>=◌, >>=-eq-ok, map_err, map_err-eq-ok, ok_injective}
use shell_sight.Bytecode.Words.{Bytes}
use shell_sight.Pool.{
  CpEntry, cp_class, cp_string, cp_name_and_type, cp_method_handle, cp_method_type, cp_dynamic,
  cp_invoke_dynamic, cp_module, cp_package,
}
use shell_sight.Constants.{
  ClassModel, MemberReference, NameAndTypeReference, ReferenceError, pool_entry, utf8_at,
  class_name, name_and_type, member_ref, invoke_dynamic, method_handle, is_member_tag, in_constant,
  needs_version, in_dynamic,
}
use shell_sight.Constants.Validate.{
  Accepts, done, method_text, validate_class_constant_name, validate_member_reference,
  validate_dynamic_constant, validate_invoke_dynamic_reference, minimum_class_version,
  constant_value, value_of, dynamic_value, check_tagged, check_constant,
}
use shell_sight.Constants.Spec.{
  HasNameAndType, HasMember, IsOrdinary, IsFieldText, IsReference, IsWellFormed, IsRecent,
}
use shell_sight.Constants.Found.{
  then_ok, wrapped, pool_entry-iff_usable, utf8_at-iff_text, class_name-iff_class,
  name_and_type-iff_has, invoke_dynamic-iff_has, member_ref-iff_member, IsMemberTag-iff,
}
use shell_sight.ClassNames.Members.{IsMember}
use shell_sight.Constants.Targets.{method_handle-iff_handle}
use shell_sight.Constants.Names.{
  chain_iff, done_iff, wrap_iff, method_text_iff, validate_class_constant_name-iff_class,
}
use shell_sight.Constants.References.{
  validate_member_reference-iff_reference, validate_invoke_dynamic_reference-iff_named,
  validate_dynamic_constant-iff_named,
}

-- The switch, as what each tag asks for.
record Asks (cf : ClassModel) (index : ℕ) (entry : CpEntry) : Type 0 where
  class_constant :
      entry.tag ≡ cp_class → (class_name cf index >>= validate_class_constant_name) ≡ ok tt
  text_behind :
      (entry.tag ≡ cp_string) ⊎ ((entry.tag ≡ cp_module) ⊎ (entry.tag ≡ cp_package))
      → (utf8_at cf entry.a >>= done) ≡ ok tt
  member :
      is_member_tag entry.tag ≡ true
      → (member_ref cf index >>= validate_member_reference entry.tag) ≡ ok tt
  named : entry.tag ≡ cp_name_and_type → (name_and_type cf index >>= done) ≡ ok tt
  handle : entry.tag ≡ cp_method_handle → (method_handle cf index >>= done) ≡ ok tt
  method_type : entry.tag ≡ cp_method_type → (utf8_at cf entry.a >>= method_text) ≡ ok tt
  dynamic : entry.tag ≡ cp_dynamic → (constant_value cf index >>= validate_dynamic_constant) ≡ ok tt
  invoked :
      entry.tag ≡ cp_invoke_dynamic
      → (invoke_dynamic cf index >>= validate_invoke_dynamic_reference) ≡ ok tt

-- A switch on a tag, over any branches.
asks :
    (cf : ClassModel) (index : ℕ) (entry : CpEntry)
    → check_tagged cf index entry ≡ ok tt
    → Asks cf index entry
unfolding check_tagged
asks cf index entry h = record {
  class_constant = λ is. ground arith;
  text_behind = λ is. ground arith;
  member = λ is. ground arith;
  named = λ is. ground arith;
  handle = λ is. ground arith;
  method_type = λ is. ground arith;
  dynamic = λ is. ground arith;
  invoked = λ is. ground arith;
}

answers :
    (cf : ClassModel) (index : ℕ) (entry : CpEntry)
    → Asks cf index entry
    → check_tagged cf index entry ≡ ok tt
unfolding check_tagged
answers cf index entry p =
    let class_constant = p.class_constant in
    let text_behind = p.text_behind in
    let member = p.member in
    let named = p.named in
    let handle = p.handle in
    let method_type = p.method_type in
    let dynamic = p.dynamic in let invoked = p.invoked in ground arith

-- A dynamic constant at its index.
dynamic_iff :
    (cf : ClassModel) (index : ℕ) (entry : CpEntry)
    → get_elem? cf.pool index ≡ some entry
    → entry.tag ≡ cp_dynamic
    → ((constant_value cf index >>= validate_dynamic_constant) ≡ ok tt) ↔ (
        (name : Bytes) × (descriptor : Bytes) × (1 ≤ index)
        × HasNameAndType cf entry.b name descriptor
        × IsOrdinary name
        × IsMember false name
        × IsFieldText descriptor)
unfolding constant_value
dynamic_iff cf index entry at is = (
  (λ h.
      let (value, got, valid) = >>=-eq-ok (pool_entry cf index >>= value_of cf index) _ h in
      let (found, taken, valued) = >>=-eq-ok (pool_entry cf index) (value_of cf index) got in
      let (low, at', used) = (pool_entry-iff_usable cf index found).0 taken in
      let same : found ≡ entry = cc (sym at' ∙ at) in
      let chosen =
        sym (dynamic_value_of cf index entry is)
        ∙ subst (λ e. value_of cf index e ≡ ok value) same valued in
      let (texts, has, made) =
        >>=-eq-ok (map_err (in_dynamic index) (name_and_type cf entry.b)) _ chosen in
      let good =
        (validate_dynamic_constant-iff_named entry.a texts).0
          (subst (λ v. validate_dynamic_constant v ≡ ok tt) (sym (ok_injective made)) valid) in
      (
        texts.name,
        texts.descriptor,
        low,
        (name_and_type-iff_has cf entry.b texts).0 (map_err-eq-ok _ _ has),
        good.0,
        good.1,
        good.2,
      )),
  λ (name, descriptor, low, has, ordinary, named, typed).
      let texts : NameAndTypeReference = record { name = name; descriptor = descriptor } in
      then_ok validate_dynamic_constant
        (then_ok (value_of cf index)
          ((pool_entry-iff_usable cf index entry).1 (low, at, λ z. cc (sym is ∙ z)))
          (dynamic_value_of cf index entry is
            ∙ then_ok _
                (wrapped (in_dynamic index) ((name_and_type-iff_has cf entry.b texts).1 has)) refl))
        ((validate_dynamic_constant-iff_named entry.a texts).1 (ordinary, named, typed)),
)
  where
    dynamic_value_of :
        (cf : ClassModel) (index : ℕ) (entry : CpEntry)
        → entry.tag ≡ cp_dynamic
        → value_of cf index entry ≡ (
            map_err (in_dynamic index) (name_and_type cf entry.b) >>= λ found.
            ok (dynamic_value entry.a found))
    dynamic_value_of cf index entry is = rw is refl

some_same : {x y : CpEntry} {o : Option CpEntry} → o ≡ some x → o ≡ some y → x ≡ y
some_same h k = cc (sym h ∙ k)

version_iff : (major tag : ℕ) → (minimum_class_version tag ≤ major) ↔ IsRecent major tag
version_iff major tag = ground arith

-- What a tag asks for is what the format asks.
module _ (cf : ClassModel) (index : ℕ) (entry : CpEntry)
    (at : get_elem? cf.pool index ≡ some entry) where
  member_iff : ((member_ref cf index >>= validate_member_reference entry.tag) ≡ ok tt) ↔ (
      (found : MemberReference) × HasMember cf index entry.tag found × IsReference entry.tag found)
  member_iff =
      let chain =
        chain_iff (member_ref cf index) (validate_member_reference entry.tag)
          (member_ref-iff_member cf index) (validate_member_reference-iff_reference entry.tag) in
      (
        (λ h.
            let (found, (tag, has), good) = chain.0 h in
            let same : tag ≡ entry.tag = same_tag tag found has in
            (found, subst (λ t. HasMember cf index t found) same has, good)),
        λ (found, has, good). chain.1 (found, (entry.tag, has), good),
      )
    where
      same_tag :
          (tag : ℕ) (found : MemberReference) → HasMember cf index tag found → tag ≡ entry.tag
      same_tag tag found (other, (low, at', tagged), is, owned, texts, sort) =
          sym tagged ∙ ap (λ e. e.tag) (some_same at' at)

  named_iff :
      ((name_and_type cf index >>= done) ≡ ok tt)
      ↔ ((name : Bytes) × (descriptor : Bytes) × HasNameAndType cf index name descriptor)
  named_iff =
      let chain = done_iff (name_and_type cf index) (name_and_type-iff_has cf index) in
      (
        (λ h. let (found, has) = chain.0 h in (found.name, found.descriptor, has)),
        λ (name, descriptor, has). chain.1 (record { name = name; descriptor = descriptor }, has),
      )

  Asks-iff_formed :
      (Asks cf index entry × IsRecent cf.major entry.tag) ↔ IsWellFormed cf index entry
  Asks-iff_formed =
      let classes =
        chain_iff (class_name cf index) validate_class_constant_name (class_name-iff_class cf index)
          validate_class_constant_name-iff_class in
      let texts = done_iff (utf8_at cf entry.a) (utf8_at-iff_text cf entry.a) in
      let handles = done_iff (method_handle cf index) (method_handle-iff_handle cf index) in
      let types =
        chain_iff (utf8_at cf entry.a) method_text (utf8_at-iff_text cf entry.a) method_text_iff in
      let calls =
        chain_iff (invoke_dynamic cf index) validate_invoke_dynamic_reference
          (invoke_dynamic-iff_has cf index) validate_invoke_dynamic_reference-iff_named in
      (
        (λ (p, new). record {
          version = new;
          class_constant = λ is. classes.0 (p.class_constant is);
          text_behind = λ is. texts.0 (p.text_behind is);
          member = λ is. member_iff.0 (p.member ((IsMemberTag-iff entry.tag).1 is));
          name_and_type = λ is. named_iff.0 (p.named is);
          handle = λ is. handles.0 (p.handle is);
          method_type = λ is. types.0 (p.method_type is);
          dynamic = λ is. (dynamic_iff cf index entry at is).0 (p.dynamic is);
          invoke_dynamic =
              λ is. let (found, has, both) = calls.0 (p.invoked is) in (found, has, both.0, both.1);
        }),
        λ w. (
          record {
            class_constant = λ is. classes.1 (w.class_constant is);
            text_behind = λ is. texts.1 (w.text_behind is);
            member = λ is. member_iff.1 (w.member ((IsMemberTag-iff entry.tag).0 is));
            named = λ is. named_iff.1 (w.name_and_type is);
            handle = λ is. handles.1 (w.handle is);
            method_type = λ is. types.1 (w.method_type is);
            dynamic = λ is. (dynamic_iff cf index entry at is).1 (w.dynamic is);
            invoked = λ is.
                let (found, has, named, typed) = w.invoke_dynamic is in
                calls.1 (found, has, (named, typed));
          },
          w.version,
        ),
      )

  pub check_constant-iff_formed :
      (check_constant cf index entry ≡ ok tt)
      ↔ ((entry.tag ≡ 0) ⊎ (entry.tag ≢ 0) × IsWellFormed cf index entry)
  unfolding check_constant
  check_constant-iff_formed =
      let wrap = wrap_iff (in_constant index entry.tag) (check_tagged cf index entry) tt in
      let tests =
        tests_iff entry.tag cf.major (needs_version index entry.tag)
          (map_err (in_constant index entry.tag) (check_tagged cf index entry)) in
      (
        (λ h. elim (tests.0 h) [
          | inl zero_tag ↦ inl zero_tag
          | inr (some_tag, new, rest) ↦ inr (
            some_tag,
            Asks-iff_formed.0
                (asks cf index entry (wrap.0 rest), (version_iff cf.major entry.tag).0 new),
          )
        ]),
        λ spec. tests.1 (elim spec [
          | inl zero_tag ↦ inl zero_tag
          | inr (some_tag, formed) ↦
              let (p, new) = Asks-iff_formed.1 formed in
              inr (
                some_tag,
                (version_iff cf.major entry.tag).1 new,
                wrap.1 (answers cf index entry p),
              )
        ]),
      )
    where
      tests_iff :
          (tag major : ℕ) (e : ReferenceError) (rest : Accepts)
          → ((if tag == 0
                then ok tt
                else if not (minimum_class_version tag == 0)
                    && ltb major (minimum_class_version tag)
                then err e
                else rest)
              ≡ ok tt)
            ↔ ((tag ≡ 0) ⊎ (tag ≢ 0) × (minimum_class_version tag ≤ major) × (rest ≡ ok tt))
      tests_iff tag major e rest = ground arith
