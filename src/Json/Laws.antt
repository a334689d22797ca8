-- ===== src/Json/Laws.antt =====
-- The stable text of packages/agentic/src/digest.ts does not depend on the order in which an
-- object's members were written.
mod Tests
use carpe_os.Common.{
  ◌≡◌, ◌≢◌, ◌⊎◌, refl, sym, ◌∙◌, ap, true, false, arith, Bool-cases, inl, inr, String,
}
use carpe_os.Common.Text.{text_lt}
use carpe_os.Common.TextOrder.{text_lt_asym, text_lt_trans, text_lt_total}
use carpe_os.Json.{
  Value, undefined, null, bool, num, str, array, object, Members, end, field, insert_field,
  put_field, to_stable_json_value, stable_fields, stable_json, stringify,
}

-- the same members, where distinct names changed places
pub data Reordered : Members → Members → Type 0 where
  same : {fs : Members} → Reordered fs fs
  swap :
      {k j : String} {v w : Value} {fs : Members}
      → k ≢ j
      → Reordered (field k v (field j w fs)) (field j w (field k v fs))
  under :
      {k : String} {v : Value} {fs gs : Members}
      → Reordered fs gs
      → Reordered (field k v fs) (field k v gs)
  after : {fs gs hs : Members} → Reordered fs gs → Reordered gs hs → Reordered fs hs

insert_field-swap :
    (k j : String) (v w : Value) (fs : Members)
    → k ≢ j
    → insert_field k v (insert_field j w fs) ≡ insert_field j w (insert_field k v fs)
unfolding insert_field
insert_field-swap k j v w end d =
    ground (arith, text_lt_total k j, text_lt_asym k j, text_lt_asym j k)
insert_field-swap k j v w (field i u fs) d = ground (
  arith,
  insert_field-swap k j v w fs d,
  text_lt_total k j,
  text_lt_asym k j,
  text_lt_asym j k,
  text_lt_trans k j i,
  text_lt_trans j k i,
  text_lt_trans k i j,
  text_lt_trans j i k,
  text_lt_asym k i,
  text_lt_asym j i,
  text_lt_asym i k,
  text_lt_asym i j,
  text_lt_trans i k j,
  text_lt_trans i j k,
  text_lt_total k i,
  text_lt_total j i,
)

put_field-cases :
    (v : Value)
    → ((k : String) (fs : Members) → put_field k v fs ≡ fs)
      ⊎ ((k : String) (fs : Members) → put_field k v fs ≡ insert_field k v fs)
unfolding put_field
put_field-cases undefined = inl (λ k fs. refl)
put_field-cases null = inr (λ k fs. refl)
put_field-cases (bool b) = inr (λ k fs. refl)
put_field-cases (num n) = inr (λ k fs. refl)
put_field-cases (str s) = inr (λ k fs. refl)
put_field-cases (array xs) = inr (λ k fs. refl)
put_field-cases (object gs) = inr (λ k fs. refl)

put_field-swap :
    (k j : String) (v w : Value) (fs : Members)
    → k ≢ j
    → put_field k v (put_field j w fs) ≡ put_field j w (put_field k v fs)
put_field-swap k j v w fs d = elim (put_field-cases v) [
  | inl v_out ↦ v_out k (put_field j w fs) ∙ ap (put_field j w) (sym (v_out k fs))
  | inr v_in ↦ elim (put_field-cases w) [
    | inl w_out ↦ ap (put_field k v) (w_out j fs) ∙ sym (w_out j (put_field k v fs))
    | inr w_in ↦
        v_in k (put_field j w fs)
        ∙ ap (insert_field k v) (w_in j fs)
        ∙ insert_field-swap k j v w fs d
        ∙ ap (insert_field j w) (sym (v_in k fs))
        ∙ sym (w_in j (put_field k v fs))
  ]
]

Reordered-stable : {fs gs : Members} → Reordered fs gs → stable_fields fs ≡ stable_fields gs
unfolding to_stable_json_value
Reordered-stable same = refl
Reordered-stable (swap {k} {j} {v} {w} {fs} d) =
    put_field-swap k j (to_stable_json_value v) (to_stable_json_value w) (stable_fields fs) d
Reordered-stable (under {k} {v} r) = ap (put_field k (to_stable_json_value v)) (Reordered-stable r)
Reordered-stable (after r r') = Reordered-stable r ∙ Reordered-stable r'

-- The stable text of an object, and so every digest of it, is the same in whatever order its members
-- with distinct names were written.
pub stable_json-reordered :
    {fs gs : Members} → Reordered fs gs → stable_json (object fs) ≡ stable_json (object gs)
unfolding stable_json to_stable_json_value
stable_json-reordered r = ap (λ fs. stringify (object fs)) (Reordered-stable r)
