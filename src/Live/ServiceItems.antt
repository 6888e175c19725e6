-- ===== src/Live/ServiceItems.antt =====
-- The literals of the items in internal/compliance/live.go, for the local service and the build.
use cloudflared_fips.Compliance.{ChecklistItem}
use cloudflared_fips.Compliance.Items.{unset}

abbrev pub local_tls_enabled_item : ChecklistItem
local_tls_enabled_item =
    unset "l-1" "Local TLS Enabled" "high" "probe"
      "Probes whether the local origin service accepts TLS connections"
      "If cloudflared connects to a plaintext HTTP backend, the last hop is unencrypted — breaking end-to-end FIPS."
      "Configure the local service to use TLS. Update ingress to use https:// origin URLs."
      "SC-8, SC-13"

abbrev pub local_cipher_suite_item : ChecklistItem
local_cipher_suite_item =
    unset "l-2" "Local Service Cipher Suite" "high" "probe"
      "Inspects the negotiated cipher suite between cloudflared and the local origin"
      "Even with TLS, a non-FIPS cipher weakens the chain. The local service must negotiate a FIPS-approved suite."
      "Configure the local service to prefer FIPS-approved cipher suites (AES-GCM with ECDHE)."
      "SC-13, SC-8"

abbrev pub local_certificate_valid_item : ChecklistItem
local_certificate_valid_item =
    unset "l-3" "Local Service Certificate Valid" "medium" "probe"
      "Checks if the local service's TLS certificate is valid and not expired"
      "An expired or self-signed cert on the origin is a compliance finding."
      "Renew the local service certificate. Use a CA-issued cert or an internal PKI." "SC-12, IA-5"

abbrev pub service_reachable_item : ChecklistItem
service_reachable_item =
    unset "l-4" "Local Service Reachable" "high" "direct"
      "Verifies the local origin service is accepting connections"
      "If the origin is down, the tunnel is non-functional regardless of crypto compliance."
      "Check that the origin service is running and listening on the configured port." "SC-8, CP-8"

abbrev pub build_manifest_present_item : ChecklistItem
build_manifest_present_item =
    unset "b-1" "Build Manifest Present" "high" "direct"
      "Checks that the build manifest JSON file is present and parseable"
      "The manifest provides cryptographic provenance: upstream version, commit, FIPS certs, binary hash."
      "Run make manifest to regenerate. Include manifest in the deployment package." "SA-11, CM-14"

abbrev pub sbom_present_item : ChecklistItem
sbom_present_item =
    unset "b-2" "SBOM Available" "medium" "direct"
      "Checks if a Software Bill of Materials (CycloneDX or SPDX) is present"
      "EO 14028 requires SBOMs for government software. The SBOM enables supply chain audit."
      "Run SBOM generation in CI or use cyclonedx-gomod locally." "SA-11, SR-4"

abbrev pub reproducible_build_item : ChecklistItem
reproducible_build_item =
    unset "b-3" "Reproducible Build" "medium" "direct"
      "Checks if the build is reproducible (same source + config = same binary hash)"
      "Reproducible builds allow independent verification that the binary matches source."
      "Use deterministic build flags: -trimpath, CGO_ENABLED=1, GOFLAGS=-mod=vendor." "SA-11, SI-7"

abbrev pub signature_valid_item : ChecklistItem
signature_valid_item =
    unset "b-4" "Artifact Signature Valid" "high" "direct"
      "Verifies the binary or package signature using cosign or GPG"
      "Code signing prevents supply chain tampering between build and deployment."
      "Sign artifacts in CI with cosign (containers) or GPG (binaries/packages)." "SI-7, SA-11"

abbrev pub fips_certs_listed_item : ChecklistItem
fips_certs_listed_item =
    unset "b-5" "FIPS Certificates Listed" "critical" "direct"
      "Verifies the build manifest lists FIPS certificate numbers for all crypto modules"
      "The AO needs cert numbers for the authorization package. Missing certs = incomplete documentation."
      "Ensure generate-manifest.sh includes the fips_certificates array." "SC-13, SA-11"

abbrev pub upstream_version_item : ChecklistItem
upstream_version_item =
    unset "b-6" "Upstream Version Tracked" "medium" "direct"
      "Checks that the upstream cloudflared version is recorded in the build manifest"
      "Tracking the upstream version ensures security patches are applied promptly."
      "Update the upstream version in the build config and regenerate the manifest." "SA-11, SI-2"

abbrev pub fips_module_sunset_item : ChecklistItem
fips_module_sunset_item =
    unset "b-7" "FIPS Module Sunset Status" "critical" "direct"
      "Checks the active FIPS module against the FIPS 140-2 sunset deadline (September 21, 2026)"
      "All FIPS 140-2 certificates move to the CMVP Historical List on September 21, 2026. After that, only FIPS 140-3 modules are valid for new federal acquisitions."
      "Upgrade to a FIPS 140-3 module: BoringCrypto #4735 (build with Go 1.24+) or Go native FIPS (GODEBUG=fips140=on, CMVP pending)."
      "SC-13, SA-11"
