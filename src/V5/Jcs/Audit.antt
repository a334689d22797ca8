-- ===== src/V5/Jcs/Audit.antt =====
-- The hash of an output does not depend on its audit members, of packages/v5/src/jcs.ts.
mod Tests
use carpe_os.Common.{
  String, Bool, true, false, ◌≡◌, refl, ap, Bool-cases, inl, inr, if◌then◌else◌, str_eq, arith,
}
use carpe_os.Json.{
  Value, Elements, Members, undefined, null, bool, num, str, array, object, no_items, item, end,
  field,
}
use carpe_os.V5.Jcs.{keep_field, audit_free, audit_free_items, audit_free_fields, jcs}

-- the value with every audit member, at every depth, replaced
mutual
  pub stamp : Value → Value → Value
  stamp a (array xs) = array (stamp_items a xs)
  stamp a (object fs) = object (stamp_fields a fs)
  stamp a v = v

  pub stamp_items : Value → Elements → Elements
  stamp_items a no_items = no_items
  stamp_items a (item x xs) = item (stamp a x) (stamp_items a xs)

  pub stamp_fields : Value → Members → Members
  stamp_fields a end = end
  stamp_fields a (field k v fs) =
      field k (if str_eq k "audit_envelope" then a else stamp a v) (stamp_fields a fs)

mutual
  unfolding stamp audit_free keep_field

  stamp_free : (a v : Value) → audit_free (stamp a v) ≡ audit_free v
  stamp_free a undefined = refl
  stamp_free a null = refl
  stamp_free a (bool b) = refl
  stamp_free a (num n) = refl
  stamp_free a (str s) = refl
  stamp_free a (array xs) = ap array (stamp_free_items a xs)
  stamp_free a (object fs) = ap object (stamp_free_fields a fs)

  stamp_free_items :
      (a : Value) (xs : Elements) → audit_free_items (stamp_items a xs) ≡ audit_free_items xs
  stamp_free_items a no_items = refl
  stamp_free_items a (item x xs) = cc (stamp_free a x, stamp_free_items a xs)

  stamp_free_fields :
      (a : Value) (fs : Members) → audit_free_fields (stamp_fields a fs) ≡ audit_free_fields fs
  stamp_free_fields a end = refl
  stamp_free_fields a (field k v fs) = ground (arith, stamp_free a v, stamp_free_fields a fs)

mutual
  unfolding audit_free keep_field

  free_free : (v : Value) → audit_free (audit_free v) ≡ audit_free v
  free_free undefined = refl
  free_free null = refl
  free_free (bool b) = refl
  free_free (num n) = refl
  free_free (str s) = refl
  free_free (array xs) = ap array (free_free_items xs)
  free_free (object fs) = ap object (free_free_fields fs)

  free_free_items : (xs : Elements) → audit_free_items (audit_free_items xs) ≡ audit_free_items xs
  free_free_items no_items = refl
  free_free_items (item x xs) = cc (free_free x, free_free_items xs)

  free_free_fields :
      (fs : Members) → audit_free_fields (audit_free_fields fs) ≡ audit_free_fields fs
  free_free_fields end = refl
  free_free_fields (field k v fs) = elim (Bool-cases (str_eq k "audit_envelope")) [
    | inl audit ↦ rw audit (free_free_fields fs)
    | inr other ↦ rw other (rw other (cc (free_free v, free_free_fields fs)))
  ]

-- Replacing every audit member of a value, at any depth, by any other value does not change the text
-- that an output is hashed by, and removing the audit members twice is removing them once.
pub audit_free_lem :
    (a v : Value)
    → (jcs (audit_free (stamp a v)) ≡ jcs (audit_free v))
      × (audit_free (audit_free v) ≡ audit_free v)
audit_free_lem a v = (ap jcs (stamp_free a v), free_free v)
