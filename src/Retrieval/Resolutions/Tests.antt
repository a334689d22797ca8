-- ===== src/Retrieval/Resolutions/Tests.antt =====
-- A concrete unit of packages/retrieval/src/resolutions.ts.
use carpe_os.Common.{◌≡◌, refl, false, some, none}
use carpe_os.Common.Code.{text_length, text_take}
use carpe_os.Retrieval.Resolutions.{
  r3, LatentUnit, ResolveOptions, shorten, resolve_latent_unit, resolve_at, resolve_below,
}
use carpe_os.Retrieval.Resolutions.Bounds.{IsWithin, resolve_latent_unit-IsWithin}

abbrev unit : LatentUnit
unit = record {
  record_id = "rec_1";
  record_kind = "claim";
  summary_text = "We ship on Thursdays.";
  full_text = some "We ship on Thursdays, after the tests have passed.";
  embedding_ref = none;
  protected_value_id = some "pv_1";
}

abbrev options : ResolveOptions
options = record { max_level = some r3; max_characters = some 10; allow_protected = none }

summary_test : (resolve_latent_unit unit options).text ≡ some "We ship o…"
unfolding resolve_latent_unit resolve_at resolve_below shorten text_take text_length
summary_test = refl

resolve_latent_unit-IsWithin_example : IsWithin 10 r3 false unit (resolve_latent_unit unit options)
resolve_latent_unit-IsWithin_example = resolve_latent_unit-IsWithin unit options
