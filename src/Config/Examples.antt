-- ===== src/Config/Examples.antt =====
-- The theorem on `Load` at a decoder that knows one text, and runs of the validation.
use ratelimiter.Base.{◌≡◌, refl, ◌↔◌, String, [], ◌∷◌, Option, none, some, str_eq, if◌then◌else◌}
use ratelimiter.Base.Int.{pos, negsuc}
use ratelimiter.Config.{
  Config, loaded, failed, bad_rate, bad_duration, validate, first_bad_rate, load,
}
use ratelimiter.Config.Validation.{IsUsable, load_iff}

abbrev demo : Config
demo = record {
  lease = record { size = pos 10; duration_ms = pos 2000 };
  tenants = ("tenant-a", pos 100_000) ∷ ("tenant-b", pos 50_000) ∷ [];
}

-- A decoder that knows one text.
abbrev decoder : String → Option Config
decoder raw = if str_eq raw "demo" then some demo else none

negative_rate :
    validate (record demo { tenants = ("a", pos 1) ∷ ("b", negsuc 0) ∷ [] })
    ≡ failed (bad_rate "b" (negsuc 0))
unfolding validate first_bad_rate
negative_rate = refl

short_lease :
    validate (record demo { lease = record { size = pos 1; duration_ms = pos 99 } })
    ≡ failed (bad_duration (pos 99))
unfolding validate
short_lease = refl

load_iff_example :
    (load decoder (some "demo") ≡ loaded demo)
    ↔ ((raw : String) × (some "demo" ≡ some raw) × (decoder raw ≡ some demo) × IsUsable demo)
load_iff_example = load_iff decoder (some "demo") demo
