-- ===== src/Retrieval/Resolutions.antt =====
-- packages/retrieval/src/resolutions.ts: the level at which a unit is shown. `looksLikeRawHookJson`
-- is not modelled, since it parses JSON.
pub mod Bounds
mod Tests
use carpe_os.Common.{
  ℕ, ◌-◌, String, Bool, true, false, ◌&&◌, Option, none, some, leb, if◌then◌else◌, or_else,
}
use carpe_os.Common.Text.{◌<>◌}
use carpe_os.Common.Code.{text_length, text_take}

pub data ResolutionLevel : Type 0 where
  r0 r1 r2 r3 : ResolutionLevel

-- the place in LEVEL_ORDER
abbrev pub level_index : ResolutionLevel → ℕ
level_index r0 = 0
level_index r1 = 1
level_index r2 = 2
level_index r3 = 3

-- `compareResolutionLevel(left, right) >= 0`
abbrev pub reaches : ResolutionLevel → ResolutionLevel → Bool
reaches left right = leb (level_index right) (level_index left)

pub record LatentUnit : Type 0 where
  pub record_id : String
  pub record_kind : String
  pub summary_text : String
  pub full_text : Option String
  pub embedding_ref : Option String
  pub protected_value_id : Option String

pub record ResolvedUnit : Type 0 where
  pub level : ResolutionLevel
  pub record_id : String
  pub record_kind : String
  pub text : Option String
  pub embedding_ref : Option String
  pub protected_value_id : Option String

pub record ResolveOptions : Type 0 where
  pub max_level : Option ResolutionLevel
  pub max_characters : Option ℕ
  pub allow_protected : Option Bool

abbrev pub bare : ResolutionLevel → LatentUnit → ResolvedUnit
bare level u = record {
  level = level;
  record_id = u.record_id;
  record_kind = u.record_kind;
  text = none;
  embedding_ref = none;
  protected_value_id = none;
}

abbrev pub fits : ℕ → Option String → Bool
fits limit none = false
fits limit (some t) = leb (text_length t) limit

abbrev pub is_there : Option String → Bool
is_there none = false
is_there (some t) = true

-- `summary.slice(0, Math.max(0, limit - 1))…`, where `-` stops at 0
unfoldable pub shorten : ℕ → String → String
shorten limit summary =
    if leb (text_length summary) limit then summary else text_take (limit - 1) summary <> "…"

-- below R3
unfoldable pub resolve_below : LatentUnit → ResolutionLevel → ℕ → ResolvedUnit
resolve_below u max_level limit =
    if reaches max_level r2
    then record (bare r2 u) {
      text = some (shorten limit u.summary_text);
      embedding_ref = u.embedding_ref;
    }
    else if reaches max_level r1 && is_there u.embedding_ref
    then record (bare r1 u) { embedding_ref = u.embedding_ref }
    else bare r0 u

unfoldable pub resolve_at : LatentUnit → ResolutionLevel → ℕ → Bool → ResolvedUnit
resolve_at u max_level limit allow =
    if reaches max_level r3 && fits limit u.full_text
    then record (bare r3 u) { text = u.full_text; embedding_ref = u.embedding_ref }
    else if reaches max_level r3 && allow && is_there u.protected_value_id
    then record (bare r3 u) {
      protected_value_id = u.protected_value_id;
      embedding_ref = u.embedding_ref;
    }
    else resolve_below u max_level limit

unfoldable pub resolve_latent_unit : LatentUnit → ResolveOptions → ResolvedUnit
resolve_latent_unit u o =
    resolve_at u (or_else o.max_level r2) (or_else o.max_characters 4000)
      (or_else o.allow_protected false)
