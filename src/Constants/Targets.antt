-- ===== src/Constants/Targets.antt =====
-- The handles that `methodHandle` accepts.
use shell_sight.Common.{
  ℕ, ◌≤◌, ◌≡◌, ◌↔◌, ◌⊎◌, refl, sym, ap, ◌∙◌, subst, arith, Bool, true, false, not, ◌&&◌, ◌||◌, List,
  get_elem?, get_or, some, ltb, ◌==◌, if◌then◌else◌, [], ◌∷◌, zero, suc,
}
use shell_sight.Common.Text.{same_bytes, same_bytes_iff}
use shell_sight.Common.Result.{ok, err, ◌>>=◌, >>=-eq-ok, map_err, map_err-eq-ok, ok_injective}
use shell_sight.Bytecode.Words.{Bytes}
use shell_sight.ClassNames.{init_name, clinit_name}
use shell_sight.Pool.{
  CpEntry, no_entry, cp_fieldref, cp_methodref, cp_interface_methodref, cp_method_handle,
}
use shell_sight.Constants.{
  ClassModel, MemberReference, ReferenceError, Lookup, pool_entry_with_tag, member_ref,
  method_handle, is_target, validate_method_handle_target, tag_at, handle_target, handle_of,
  bad_target, bad_target_name, in_handle, invalid_kind,
}
use shell_sight.Constants.Spec.{HasMember, IsTarget, HasHandle}
use shell_sight.Constants.Found.{
  then_ok, wrapped, pool_entry_with_tag-iff_constant, member_ref-iff_member,
}

-- The three checks, with the tests on names as Booleans.
checks_iff :
    (target : Bool) (kind tag : ℕ) (init clinit : Bool)
    → ((if not target
          then err (bad_target kind tag)
          else if kind == 8 && not init
          then err (bad_target_name kind tag)
          else if (kind == 5 || kind == 6 || kind == 7 || kind == 9) && (init || clinit)
          then err (bad_target_name kind tag)
          else ok tt)
        ≡ ok tt)
      ↔ (target ≡ true)
        × (kind ≡ 8 → init ≡ true)
        × ((kind ≡ 5) ⊎ ((kind ≡ 6) ⊎ ((kind ≡ 7) ⊎ (kind ≡ 9)))
            → (init ≡ false) × (clinit ≡ false))
checks_iff target kind tag init clinit = ground arith

is_target_iff :
    (major kind tag : ℕ)
    → (is_target major kind tag ≡ true) ↔ (
        (1 ≤ kind) × (kind ≤ 4) × (tag ≡ cp_fieldref)
        ⊎ ((kind ≡ 5) × (tag ≡ cp_methodref)
            ⊎ (((kind ≡ 6) ⊎ (kind ≡ 7))
                  × ((tag ≡ cp_methodref) ⊎ (52 ≤ major) × (tag ≡ cp_interface_methodref))
                ⊎ ((kind ≡ 8) × (tag ≡ cp_methodref)
                    ⊎ (kind ≡ 9) × (tag ≡ cp_interface_methodref)))))
unfolding is_target
is_target_iff major kind tag = ground arith

pub validate_method_handle_target-iff_table :
    (major kind tag : ℕ) (name : Bytes)
    → (validate_method_handle_target major kind tag name ≡ ok tt) ↔ IsTarget major kind tag name
unfolding validate_method_handle_target
validate_method_handle_target-iff_table major kind tag name =
    let checks =
      checks_iff (is_target major kind tag) kind tag (same_bytes name init_name)
        (same_bytes name clinit_name) in
    let target = is_target_iff major kind tag in
    let init = same_bytes_iff name init_name in
    let clinit = same_bytes_iff name clinit_name in ground arith

get_or-found :
    (pool : List CpEntry) (index : ℕ) (entry : CpEntry)
    → get_elem? pool index ≡ some entry
    → get_or pool index no_entry ≡ entry
get_or-found [] index entry h = cc h
get_or-found (x ∷ xs) zero entry h = cc h
get_or-found (x ∷ xs) (suc index) entry h = get_or-found xs index entry h

HasMember-tag_at :
    (cf : ClassModel) (index tag : ℕ) (found : MemberReference)
    → HasMember cf index tag found
    → tag_at cf index ≡ tag
HasMember-tag_at cf index tag found (entry, (low, at, tagged), is, owned, texts, sort) =
    ap (λ e. e.tag) (get_or-found cf.pool index entry at) ∙ tagged

range_keeps :
    (kind : ℕ) (e : ReferenceError) (rest : Lookup MemberReference) {found : MemberReference}
    → (if ltb kind 1 || ltb 9 kind then err e else rest) ≡ ok found
    → (1 ≤ kind) × (kind ≤ 9) × (rest ≡ ok found)
range_keeps kind e rest h = ground arith

range_kept :
    (kind : ℕ) (e : ReferenceError) (rest : Lookup MemberReference)
    → 1 ≤ kind
    → kind ≤ 9
    → (if ltb kind 1 || ltb 9 kind then err e else rest) ≡ rest
range_kept kind e rest low high = ground arith

-- A handle is found exactly when its kind and the member behind it stand in the table of kinds.
pub method_handle-iff_handle :
    (cf : ClassModel) (index : ℕ) (found : MemberReference)
    → (method_handle cf index ≡ ok found) ↔ HasHandle cf index found
unfolding method_handle
method_handle-iff_handle cf index found = (
  (λ h.
      let (entry, got, handled) =
        >>=-eq-ok (pool_entry_with_tag cf index cp_method_handle) (handle_of cf index) h in
      let (_, _, rest) = keeps cf index entry found handled in
      let (member, referred, targeted) =
        >>=-eq-ok (map_err (in_handle index) (member_ref cf entry.b)) (handle_target cf index entry)
          rest in
      let (done, allowed, is) =
        >>=-eq-ok
          (map_err (in_handle index)
            (validate_method_handle_target cf.major entry.a (tag_at cf entry.b) member.name))
          _ targeted in
      let same = ok_injective is in
      let (tag, has) = (member_ref-iff_member cf entry.b member).0 (map_err-eq-ok _ _ referred) in
      let good =
        (validate_method_handle_target-iff_table cf.major entry.a (tag_at cf entry.b) member.name).0
          (map_err-eq-ok _ _ allowed) in
      (
        entry,
        (pool_entry_with_tag-iff_constant cf index cp_method_handle entry (λ z. cc z)).0 got,
        (
          tag,
          subst (HasMember cf entry.b tag) same has,
          subst (λ f. IsTarget cf.major entry.a tag f.name) same
              (subst (λ t. IsTarget cf.major entry.a t member.name)
                (HasMember-tag_at cf entry.b tag member has) good),
        ),
      )),
  λ (entry, has, (tag, member, good)).
      then_ok _
        ((pool_entry_with_tag-iff_constant cf index cp_method_handle entry (λ z. cc z)).1 has)
        (in_range cf index entry (kinds_of cf.major entry.a tag found.name good)
          ∙ then_ok _
              (wrapped (in_handle index) ((member_ref-iff_member cf entry.b found).1 (tag, member)))
              (then_ok _
                (wrapped (in_handle index) (
                  (validate_method_handle_target-iff_table cf.major entry.a (tag_at cf entry.b)
                      found.name).1
                    (subst (λ t. IsTarget cf.major entry.a t found.name)
                      (sym (HasMember-tag_at cf entry.b tag found member)) good)))
                refl)),
)
  where
    keeps :
        (cf : ClassModel) (index : ℕ) (entry : CpEntry) (found : MemberReference)
        → handle_of cf index entry ≡ ok found
        → (1 ≤ entry.a)
          × (entry.a ≤ 9)
          × ((map_err (in_handle index) (member_ref cf entry.b) >>= handle_target cf index entry)
              ≡ ok found)
    keeps cf index entry found h = range_keeps entry.a (invalid_kind index entry.a) _ h

    kinds_of :
        (major kind tag : ℕ) (name : Bytes) → IsTarget major kind tag name → (1 ≤ kind) × (kind ≤ 9)
    kinds_of major kind tag name good = ground arith

    in_range :
        (cf : ClassModel) (index : ℕ) (entry : CpEntry)
        → (1 ≤ entry.a) × (entry.a ≤ 9)
        → handle_of cf index entry
          ≡ (map_err (in_handle index) (member_ref cf entry.b) >>= handle_target cf index entry)
    in_range cf index entry (low, high) = range_kept entry.a (invalid_kind index entry.a) _ low high
