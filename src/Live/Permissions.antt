-- ===== src/Live/Permissions.antt =====
-- Which permissions of the audit log internal/compliance/live.go accepts.
use cloudflared_fips.Prelude.{ℕ, ◌+◌, ◌*◌, ◌<◌, ◌≤◌, ◌≡◌, ◌↔◌, ◌⊎◌, arith}
use cloudflared_fips.Compliance.{pass}
use cloudflared_fips.Live.Operations.{judge_log_perm}

-- The check of the log's permissions passes exactly where others may do nothing and either the owner
-- may read and write alone, with a group that neither reads and writes nor reads and executes, or
-- the owner may do less than that, whatever the group may do.
judge_log_perm-passes :
    (owner group world : ℕ)
    → owner < 8
    → group < 8
    → world < 8
    → ((judge_log_perm (owner * 64 + group * 8 + world)).status ≡ pass)
      ↔ (world ≡ 0) × ((owner < 6) ⊎ (owner ≡ 6) × (group ≤ 4))
unfolding judge_log_perm
judge_log_perm-passes owner group world o g w = ground arith
