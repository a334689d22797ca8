-- ===== src/Retrieval/Resolutions/Bounds.antt =====
-- The bounds that packages/retrieval/src/resolutions.ts keeps.
use carpe_os.Common.{
  ℕ, ◌-◌, ◌≤◌, ◌≡◌, refl, String, Bool, true, false, ◌&&◌, not, Option, none, some, leb, or_else,
  arith, Bool-cases, inl, inr, max,
}
use carpe_os.Common.Code.{text_length, text_take, text_length-append, text_length-text_take}
use carpe_os.Retrieval.Resolutions.{
  ResolutionLevel, r0, r1, r2, r3, level_index, LatentUnit, ResolvedUnit, ResolveOptions, fits,
  is_there, shorten, resolve_below, resolve_at, resolve_latent_unit,
}

abbrev pub text_size : Option String → ℕ
text_size none = 0
text_size (some t) = text_length t

ellipsis : text_length "…" ≡ 1
unfolding text_length
ellipsis = refl

shorten-bound : (limit : ℕ) (s : String) → text_length (shorten limit s) ≤ max 1 limit
unfolding shorten
shorten-bound limit s = elim (Bool-cases (leb (text_length s) limit)) [
  | inl short ↦ rw short (ground (arith, short))
  | inr long ↦ rw long (
      ground (
        arith,
        ellipsis,
        text_length-append (text_take (limit - 1) s) "…",
        text_length-text_take (limit - 1) s,
      ))
]

pub record IsWithin (limit : ℕ) (top : ResolutionLevel) (allow : Bool) (u : LatentUnit)
    (r : ResolvedUnit) : Type 0 where
  pub named : r.record_id ≡ u.record_id
  pub bounded : level_index r.level ≤ level_index top
  pub short : text_size r.text ≤ max 1 limit
  pub guarded : (is_there r.protected_value_id && not allow) ≡ false
  pub plain : (is_there r.protected_value_id && not (leb 3 (level_index r.level))) ≡ false

resolve_below-IsWithin :
    (u : LatentUnit) (top : ResolutionLevel) (limit : ℕ) (allow : Bool)
    → IsWithin limit top allow u (resolve_below u top limit)
unfolding resolve_below
resolve_below-IsWithin u r0 limit allow = record {
  named = refl;
  bounded = omega arith;
  short = omega arith;
  guarded = ground arith;
  plain = ground arith;
}
resolve_below-IsWithin u r1 limit allow = elim (Bool-cases (is_there u.embedding_ref)) [
  | inl there ↦ rw there (record {
    named = refl;
    bounded = omega arith;
    short = omega arith;
    guarded = ground arith;
    plain = ground arith;
  })
  | inr missing ↦ rw missing (record {
    named = refl;
    bounded = omega arith;
    short = omega arith;
    guarded = ground arith;
    plain = ground arith;
  })
]
resolve_below-IsWithin u r2 limit allow = record {
  named = refl;
  bounded = omega arith;
  short = shorten-bound limit u.summary_text;
  guarded = ground arith;
  plain = ground arith;
}
resolve_below-IsWithin u r3 limit allow = record {
  named = refl;
  bounded = omega arith;
  short = shorten-bound limit u.summary_text;
  guarded = ground arith;
  plain = ground arith;
}

full_fits : (limit : ℕ) (t : Option String) → fits limit t ≡ true → text_size t ≤ max 1 limit
full_fits limit none h = ground arith
full_fits limit (some t) h = ground (arith, h)

resolve_at-IsWithin :
    (u : LatentUnit) (top : ResolutionLevel) (limit : ℕ) (allow : Bool)
    → IsWithin limit top allow u (resolve_at u top limit allow)
unfolding resolve_at
resolve_at-IsWithin u r0 limit allow = resolve_below-IsWithin u r0 limit allow
resolve_at-IsWithin u r1 limit allow = resolve_below-IsWithin u r1 limit allow
resolve_at-IsWithin u r2 limit allow = resolve_below-IsWithin u r2 limit allow
resolve_at-IsWithin u r3 limit allow = elim (Bool-cases (fits limit u.full_text)) [
  | inl full ↦ rw full (record {
    named = refl;
    bounded = omega arith;
    short = full_fits limit u.full_text full;
    guarded = ground arith;
    plain = ground arith;
  })
  | inr over ↦ elim (Bool-cases (allow && is_there u.protected_value_id)) [
    | inl shown ↦
        rw (over, shown)
          (record {
            named = refl;
            bounded = omega arith;
            short = omega arith;
            guarded = ground (arith, shown);
            plain = ground arith;
          })
    | inr closed ↦ rw (over, closed) (resolve_below-IsWithin u r3 limit allow)
  ]
]

-- A unit is never shown above the level that is asked for (R2 unless the options say otherwise), nor
-- with a text longer than the budget (4000 unless they say otherwise; a budget of 0 still lets one
-- character through), and the reference to its protected value is given only at R3, and only where
-- that is allowed.
pub resolve_latent_unit-IsWithin :
    (u : LatentUnit) (o : ResolveOptions)
    → IsWithin
        (or_else o.max_characters 4000)
        (or_else o.max_level r2)
        (or_else o.allow_protected false)
        u
        (resolve_latent_unit u o)
unfolding resolve_latent_unit
resolve_latent_unit-IsWithin u o =
    resolve_at-IsWithin u (or_else o.max_level r2) (or_else o.max_characters 4000)
      (or_else o.allow_protected false)
