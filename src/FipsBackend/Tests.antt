-- ===== src/FipsBackend/Tests.antt =====
-- Versions of pkg/fipsbackend at a release and at a release candidate.
use cloudflared_fips.Prelude.{◌≡◌, refl, String, true, false, none}
use cloudflared_fips.Prelude.Text.{split_cuts, trim_prefix}
use cloudflared_fips.FipsBackend.{Build, go_version_at_least}

abbrev build : String → Build
build version = record { goos = "linux"; version = version; settings = none; godebug = "" }

release : go_version_at_least (build "go1.24.3") 1 24 ≡ true
unfolding go_version_at_least split_cuts trim_prefix
release = refl

-- the candidate of 1.25 counts as older than 1.24
candidate : go_version_at_least (build "go1.25rc1") 1 24 ≡ false
unfolding go_version_at_least split_cuts trim_prefix
candidate = refl
