-- ===== src/Constants/Found.antt =====
-- A lookup succeeds exactly when the constants that it follows are there.
use shell_sight.Common.{
  ℕ, ◌≤◌, ◌≡◌, ◌≢◌, ◌↔◌, refl, sym, ap, ◌∙◌, subst, arith, Bool, true, false, not, get_elem?,
  Option, none, some, length, ◌==◌, if◌then◌else◌,
}
use shell_sight.Common.Result.{ok, err, ◌>>=◌, >>=-eq-ok, map_err, map_err-eq-ok, ok_injective}
use shell_sight.Bytecode.Words.{Bytes}
use shell_sight.Pool.{
  CpEntry, cp_utf8, cp_class, cp_name_and_type, cp_invoke_dynamic, cp_interface_methodref,
}
use shell_sight.Constants.{
  ClassModel, MemberReference, NameAndTypeReference, InvokeDynamicReference, ReferenceError, Lookup,
  pool_entry, pool_entry_with_tag, utf8_at, class_name, name_and_type, member_ref, invoke_dynamic,
  usable, with_tag, text_of, class_text, name_type_texts, member_of, member_parts, dynamic_parts,
  is_member_tag, in_class, in_name, in_descriptor, in_member, in_invoke_dynamic,
}
use shell_sight.Constants.Spec.{
  HasConstant, HasText, HasClass, HasNameAndType, IsMemberTag, HasMember, HasInvokeDynamic,
}

-- To go through a chain of lookups, from the results of its steps.
pub then_ok :
    {A B : Type 0} {m : Lookup A} (next : A → Lookup B) {a : A} {b : B}
    → m ≡ ok a
    → next a ≡ ok b
    → ◌≡◌ {A = Lookup B} (m >>= next) (ok b)
then_ok next found rest = ap (λ m. m >>= next) found ∙ rest

pub wrapped :
    {A : Type 0} (w : ReferenceError → ReferenceError) {m : Lookup A} {a : A}
    → m ≡ ok a
    → map_err w m ≡ ok a
wrapped w found = ap (map_err w) found

-- Behind `if !test { return err }`.
pub passes :
    {A : Type 0} (test : Bool) (e : ReferenceError) (rest : Lookup A) {a : A}
    → (if not test then err e else rest) ≡ ok a
    → (test ≡ true) × (rest ≡ ok a)
passes true e rest h = (refl, h)
passes false e rest h = cc h

pub passed :
    {A : Type 0} (test : Bool) (e : ReferenceError) (rest : Lookup A)
    → test ≡ true
    → (if not test then err e else rest) ≡ rest
passed true e rest h = refl
passed false e rest h = cc h

usable_iff :
    (index size : ℕ) (found : Option CpEntry) (entry : CpEntry)
    → (usable index size found ≡ ok entry) ↔ (found ≡ some entry) × (entry.tag ≢ 0)
usable_iff index size none entry = ((λ h. cc), λ (h, k). cc)
usable_iff index size (some found) entry = (
  (λ h.
      let (same, used) = keeps index found entry h in
      (ap some same, subst (λ e. e.tag ≢ 0) same used)),
  λ (same, used). let is : found ≡ entry = cc same in ground arith,
)
  where
    keeps :
        (index : ℕ) (found entry : CpEntry)
        → usable index 0 (some found) ≡ ok entry
        → (found ≡ entry) × (found.tag ≢ 0)
    keeps index found entry h = ground arith

pub pool_entry-iff_usable :
    (cf : ClassModel) (index : ℕ) (entry : CpEntry)
    → (pool_entry cf index ≡ ok entry)
      ↔ (1 ≤ index) × (get_elem? cf.pool index ≡ some entry) × (entry.tag ≢ 0)
unfolding pool_entry
pool_entry-iff_usable cf index entry =
    let at = usable_iff index (length cf.pool) (get_elem? cf.pool index) entry in ground arith

pub pool_entry_with_tag-iff_constant :
    (cf : ClassModel) (index tag : ℕ) (entry : CpEntry)
    → tag ≢ 0
    → (pool_entry_with_tag cf index tag ≡ ok entry) ↔ HasConstant cf index tag entry
unfolding pool_entry_with_tag
pool_entry_with_tag-iff_constant cf index tag entry some_tag = (
  (λ h.
      let (found, got, kept) = >>=-eq-ok (pool_entry cf index) (with_tag index tag) h in
      let (low, is, used) = (pool_entry-iff_usable cf index found).0 got in
      let (tagged, same) = keeps index tag found entry kept in
      subst (HasConstant cf index tag) same (low, is, tagged)),
  λ (low, is, tagged).
      then_ok _ ((pool_entry-iff_usable cf index entry).1 (low, is, λ z. some_tag (sym tagged ∙ z)))
        (kept_back index tag entry tagged),
)
  where
    keeps :
        (index tag : ℕ) (found entry : CpEntry)
        → with_tag index tag found ≡ ok entry
        → (found.tag ≡ tag) × (found ≡ entry)
    keeps index tag found entry h = ground arith

    kept_back :
        (index tag : ℕ) (entry : CpEntry) → entry.tag ≡ tag → with_tag index tag entry ≡ ok entry
    kept_back index tag entry h = ground arith

pub utf8_at-iff_text :
    (cf : ClassModel) (index : ℕ) (text : Bytes)
    → (utf8_at cf index ≡ ok text) ↔ HasText cf index text
unfolding utf8_at
utf8_at-iff_text cf index text = (
  (λ h.
      let (entry, got, is) = >>=-eq-ok (pool_entry_with_tag cf index cp_utf8) text_of h in
      (
        entry,
        (pool_entry_with_tag-iff_constant cf index cp_utf8 entry (λ z. cc z)).0 got,
        ok_injective is,
      )),
  λ (entry, has, is).
      then_ok _ ((pool_entry_with_tag-iff_constant cf index cp_utf8 entry (λ z. cc z)).1 has)
        (ap (λ t. ok t) is),
)

pub class_name-iff_class :
    (cf : ClassModel) (index : ℕ) (name : Bytes)
    → (class_name cf index ≡ ok name) ↔ HasClass cf index name
unfolding class_name
class_name-iff_class cf index name = (
  (λ h.
      let (entry, got, texted) =
        >>=-eq-ok (pool_entry_with_tag cf index cp_class) (class_text cf index) h in
      (
        entry,
        (pool_entry_with_tag-iff_constant cf index cp_class entry (λ z. cc z)).0 got,
        (utf8_at-iff_text cf entry.a name).0 (map_err-eq-ok _ _ texted),
      )),
  λ (entry, has, texted).
      then_ok _ ((pool_entry_with_tag-iff_constant cf index cp_class entry (λ z. cc z)).1 has)
        (wrapped (in_class index) ((utf8_at-iff_text cf entry.a name).1 texted)),
)

pub name_and_type-iff_has :
    (cf : ClassModel) (index : ℕ) (found : NameAndTypeReference)
    → (name_and_type cf index ≡ ok found) ↔ HasNameAndType cf index found.name found.descriptor
unfolding name_and_type
name_and_type-iff_has cf index found = (
  (λ h.
      let (entry, got, texts) =
        >>=-eq-ok (pool_entry_with_tag cf index cp_name_and_type) (name_type_texts cf index) h in
      let (name, named, more) = >>=-eq-ok (map_err (in_name index) (utf8_at cf entry.a)) _ texts in
      let (descriptor, described, is) =
        >>=-eq-ok (map_err (in_descriptor index) (utf8_at cf entry.b)) _ more in
      (
        entry,
        (pool_entry_with_tag-iff_constant cf index cp_name_and_type entry (λ z. cc z)).0 got,
        subst (HasText cf entry.a) (ap (λ f. f.name) (ok_injective is))
            ((utf8_at-iff_text cf entry.a name).0 (map_err-eq-ok _ _ named)),
        subst (HasText cf entry.b) (ap (λ f. f.descriptor) (ok_injective is))
            ((utf8_at-iff_text cf entry.b descriptor).0 (map_err-eq-ok _ _ described)),
      )),
  λ (entry, has, named, described).
      then_ok _
        ((pool_entry_with_tag-iff_constant cf index cp_name_and_type entry (λ z. cc z)).1 has)
        (then_ok _ (wrapped (in_name index) ((utf8_at-iff_text cf entry.a found.name).1 named)) (
          then_ok _
            (wrapped (in_descriptor index)
              ((utf8_at-iff_text cf entry.b found.descriptor).1 described))
            refl)),
)

pub invoke_dynamic-iff_has :
    (cf : ClassModel) (index : ℕ) (found : InvokeDynamicReference)
    → (invoke_dynamic cf index ≡ ok found) ↔ HasInvokeDynamic cf index found
unfolding invoke_dynamic
invoke_dynamic-iff_has cf index found = (
  (λ h.
      let (entry, got, parts) =
        >>=-eq-ok (pool_entry_with_tag cf index cp_invoke_dynamic) (dynamic_parts cf index) h in
      let (texts, has, is) =
        >>=-eq-ok (map_err (in_invoke_dynamic index) (name_and_type cf entry.b)) _ parts in
      let same = ok_injective is in
      (
        entry,
        (pool_entry_with_tag-iff_constant cf index cp_invoke_dynamic entry (λ z. cc z)).0 got,
        ap (λ f. f.bootstrap) same,
        subst (λ f. HasNameAndType cf entry.b f.name f.descriptor) same
            ((name_and_type-iff_has cf entry.b texts).0 (map_err-eq-ok _ _ has)),
      )),
  λ (entry, has, first, texts).
      then_ok _
        ((pool_entry_with_tag-iff_constant cf index cp_invoke_dynamic entry (λ z. cc z)).1 has)
        (then_ok _
          (wrapped (in_invoke_dynamic index) (
            (name_and_type-iff_has cf entry.b
                (record { name = found.name; descriptor = found.descriptor })).1
              texts))
          (ap (λ b. ok (record { bootstrap = b; name = found.name; descriptor = found.descriptor }))
            first)),
)

pub IsMemberTag-iff : (tag : ℕ) → (is_member_tag tag ≡ true) ↔ IsMemberTag tag
IsMemberTag-iff tag = ground arith

-- The tag of the reference comes with it.
pub member_ref-iff_member :
    (cf : ClassModel) (index : ℕ) (found : MemberReference)
    → (member_ref cf index ≡ ok found) ↔ ((tag : ℕ) × HasMember cf index tag found)
unfolding member_ref
member_ref-iff_member cf index found = (
  (λ h.
      let (entry, got, parts) = >>=-eq-ok (pool_entry cf index) (member_of cf index) h in
      let (low, at, used) = (pool_entry-iff_usable cf index entry).0 got in
      let (is_member, joined) = keeps cf index entry found parts in
      let (owner, owned, more) =
        >>=-eq-ok (map_err (in_member index) (class_name cf entry.a)) _ joined in
      let (texts, has, is) =
        >>=-eq-ok (map_err (in_member index) (name_and_type cf entry.b)) _ more in
      let same = ok_injective is in
      (
        entry.tag,
        (
          entry,
          (low, at, refl),
          (IsMemberTag-iff entry.tag).0 is_member,
          subst (HasClass cf entry.a) (ap (λ f. f.owner) same)
              ((class_name-iff_class cf entry.a owner).0 (map_err-eq-ok _ _ owned)),
          subst (λ f. HasNameAndType cf entry.b f.name f.descriptor) same
              ((name_and_type-iff_has cf entry.b texts).0 (map_err-eq-ok _ _ has)),
          sym (ap (λ f. f.interface) same),
        ),
      )),
  λ (tag, (entry, (low, at, tagged), of_member, owned, texts, sort)).
      let is_member = (IsMemberTag-iff tag).1 of_member in
      then_ok _
        ((pool_entry-iff_usable cf index entry).1 (low, at, tag_used entry tag tagged is_member))
        (kept_back cf index entry tag tagged is_member
          ∙ then_ok _
              (wrapped (in_member index) ((class_name-iff_class cf entry.a found.owner).1 owned))
              (then_ok _
                (wrapped (in_member index) (
                  (name_and_type-iff_has cf entry.b
                      (record { name = found.name; descriptor = found.descriptor })).1
                    texts))
                (ap
                  (λ b. ok (record {
                    owner = found.owner;
                    name = found.name;
                    descriptor = found.descriptor;
                    interface = b;
                  }))
                  (ap (λ t. t == cp_interface_methodref) tagged ∙ sym sort)))),
)
  where
    keeps :
        (cf : ClassModel) (index : ℕ) (entry : CpEntry) (found : MemberReference)
        → member_of cf index entry ≡ ok found
        → (is_member_tag entry.tag ≡ true) × (member_parts cf index entry ≡ ok found)
    keeps cf index entry found h = passes (is_member_tag entry.tag) _ _ h

    kept_back :
        (cf : ClassModel) (index : ℕ) (entry : CpEntry) (tag : ℕ)
        → entry.tag ≡ tag
        → is_member_tag tag ≡ true
        → member_of cf index entry ≡ member_parts cf index entry
    kept_back cf index entry tag tagged is =
        passed (is_member_tag entry.tag) _ _ (ap is_member_tag tagged ∙ is)

    tag_used :
        (entry : CpEntry) (tag : ℕ) → entry.tag ≡ tag → is_member_tag tag ≡ true → entry.tag ≢ 0
    tag_used entry tag tagged is = ground arith
