-- ===== src/Deployment/Tests.antt =====
-- Tiers of pkg/deployment/tier.go at some texts.
use cloudflared_fips.Prelude.{◌≡◌, refl, String}
use cloudflared_fips.Prelude.Results.{ok}
use cloudflared_fips.Prelude.Text.{to_lower, trim_space}
use cloudflared_fips.Deployment.{
  parse_tier, get_tier, get_tier_info, standard, regional_keyless, self_hosted,
}

abbrev quote : String → String
quote s = s

spaced : parse_tier quote " Regional-KEYLESS " ≡ ok regional_keyless
unfolding parse_tier to_lower trim_space
spaced = refl

third : parse_tier quote "TIER3" ≡ ok self_hosted
unfolding parse_tier to_lower trim_space
third = refl

unknown_tier : (get_tier quote "tier4").tier ≡ standard
unfolding get_tier get_tier_info parse_tier to_lower trim_space
unknown_tier = refl
