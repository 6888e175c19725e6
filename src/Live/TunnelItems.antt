-- ===== src/Live/TunnelItems.antt =====
-- The literals of the items in internal/compliance/live.go, for the tunnel.
use cloudflared_fips.Compliance.{ChecklistItem}
use cloudflared_fips.Compliance.Items.{unset}

abbrev pub boring_crypto_active_item : ChecklistItem
boring_crypto_active_item =
    unset "t-1" "FIPS Crypto Backend Active" "critical" "direct"
      "Confirms a FIPS-validated crypto provider is active (BoringCrypto on Linux, Go native FIPS on macOS/Windows)"
      "A FIPS-validated crypto module must replace Go's standard crypto library. Without it, no cryptographic operations are FIPS-validated."
      "Build with GOEXPERIMENT=boringcrypto (Linux) or GODEBUG=fips140=on (cross-platform)."
      "SC-13, IA-7"

abbrev pub os_fips_mode_item : ChecklistItem
os_fips_mode_item =
    unset "t-2" "OS FIPS Mode (Server)" "high" "direct"
      "Checks if the host operating system has FIPS mode enabled via /proc/sys/crypto/fips_enabled"
      "OS-level FIPS mode restricts the kernel and all userspace crypto to FIPS-approved algorithms. Without it, the OS may negotiate non-FIPS connections."
      "Enable FIPS mode: fips-mode-setup --enable && reboot. For containers, the host must have FIPS enabled."
      "SC-13, CM-6"

abbrev pub fips_self_test_item : ChecklistItem
fips_self_test_item =
    unset "t-3" "FIPS Self-Test" "critical" "direct"
      "Runs Known Answer Tests (KATs) against NIST CAVP vectors for all FIPS-approved algorithms"
      "FIPS 140-2 requires power-up self-tests. If KATs fail, the crypto module is compromised or corrupted."
      "Re-run make selftest. If failures persist, rebuild the binary from clean source."
      "SC-13, IA-7"

abbrev pub tunnel_protocol_item : ChecklistItem
tunnel_protocol_item =
    unset "t-4" "Tunnel Protocol" "medium" "direct"
      "Checks the active tunnel protocol (QUIC or HTTP/2) via cloudflared metrics"
      "Both QUIC and HTTP/2 use TLS, but the cipher negotiation path differs. QUIC via quic-go must route TLS through BoringCrypto."
      "Set protocol: http2 in config to force HTTP/2 if QUIC cipher audit is incomplete."
      "SC-8, SC-13"

abbrev pub tls_version_item : ChecklistItem
tls_version_item =
    unset "t-5" "TLS Version (Edge → Tunnel)" "critical" "direct"
      "Verifies the tunnel uses TLS 1.2 or 1.3 for connections to Cloudflare edge"
      "FIPS requires TLS 1.2 minimum (SP 800-52 Rev 2). TLS 1.0/1.1 are prohibited."
      "Set MinVersion: tls.VersionTLS12 in the TLS config. BoringCrypto enforces this by default."
      "SC-8, SC-13"

abbrev pub cipher_suites_item : ChecklistItem
cipher_suites_item =
    unset "t-6" "Cipher Suites (Tunnel)" "critical" "direct"
      "Verifies only FIPS-approved cipher suites are available in the Go TLS stack"
      "Non-FIPS ciphers (RC4, DES, 3DES) must be absent. NIST SP 800-52 Rev 2 defines the approved set."
      "Build with GOEXPERIMENT=boringcrypto (Linux) or GODEBUG=fips140=on (cross-platform)."
      "SC-13, SC-8"

abbrev pub key_exchange_item : ChecklistItem
key_exchange_item =
    unset "t-7" "Key Exchange (ECDHE)" "high" "direct"
      "Verifies ECDHE with NIST P-256 or P-384 curves is used for key exchange"
      "Forward secrecy via ephemeral key exchange is required. Only NIST curves are FIPS-approved."
      "Set CurvePreferences to P-256/P-384 in TLS config." "SC-12, SC-13"

abbrev pub certificate_validity_item : ChecklistItem
certificate_validity_item =
    unset "t-8" "Tunnel Certificate Valid" "high" "direct"
      "Checks if the cloudflared tunnel certificate is present and not expired"
      "An expired or missing certificate will cause tunnel establishment to fail."
      "Re-authenticate: cloudflared tunnel login. Check cert.pem expiry." "SC-12, IA-5"

abbrev pub tunnel_redundancy_item : ChecklistItem
tunnel_redundancy_item =
    unset "t-9" "Tunnel Redundancy" "medium" "direct"
      "Checks if multiple tunnel connections are established for redundancy"
      "Cloudflared maintains multiple connections to different edge servers for HA. Loss of redundancy indicates network issues."
      "Check cloudflared logs for connection errors. Verify network allows outbound to Cloudflare edge IPs."
      "SC-8, CP-8"

abbrev pub binary_integrity_item : ChecklistItem
binary_integrity_item =
    unset "t-10" "Binary Integrity" "critical" "direct"
      "Hashes the running binary and compares to the build manifest's binary_sha256"
      "Detects tampering or accidental corruption of the FIPS binary after deployment."
      "Re-download or rebuild the binary. Verify the manifest was not tampered with." "SI-7, CM-14"

abbrev pub config_drift_item : ChecklistItem
config_drift_item =
    unset "t-11" "Config Drift Detection" "medium" "direct"
      "Hashes the current config file to detect unauthorized changes"
      "Configuration changes can weaken FIPS posture (e.g., disabling self-test, changing cipher list)."
      "Compare current config to the known-good baseline in your CM system." "CM-3, CM-6"

abbrev pub fips_backend_item : ChecklistItem
fips_backend_item =
    unset "t-12" "FIPS Crypto Module Identified" "critical" "direct"
      "Identifies the active FIPS cryptographic module and its CMVP validation status"
      "The AO must know which validated module is in use and its certificate number."
      "Build with GOEXPERIMENT=boringcrypto (Linux) or GODEBUG=fips140=on (cross-platform)."
      "SC-13, IA-7"
