-- ===== src/Config/Rules/Backup.antt =====
-- The check on the backup target's port in `validateRules` of internal/config/config.go.
use go_nftables_portbridge.Prelude.{◌+◌, ◌≤◌, ◌<◌, ◌≡◌, false, ℕ, arith, ◌↔◌}
use go_nftables_portbridge.Prelude.Int.{pos, ◌+ℤ◌, ◌-ℤ◌, half_range}
use go_nftables_portbridge.Config.Rules.{backup_port_bad}

-- For a listen range of n + 1 ports from l on that ends by 65535: where the last backup port is an `int`, the check
-- passes exactly when the backup ports lie within 1 to 65535.
pub backup_port_exact :
    (backup l n : ℕ)
    → l + n ≤ 65535
    → backup + n < half_range
    → (backup_port_bad (pos backup) (pos (l + n)) (pos l) ≡ false)
      ↔ ((1 ≤ backup) × (backup + n ≤ 65535))
unfolding backup_port_bad ◌+ℤ◌ ◌-ℤ◌
backup_port_exact backup l n k h = (λ e. ground arith, λ e. ground arith)

-- For a listen range of n + 1 ports from l on within 1 to 65535: where the last backup port is
-- beyond the largest `int`, the sum wraps round and the check passes, though the backup port is
-- above 65535.
pub backup_port_wraps :
    (backup l n : ℕ)
    → 1 ≤ l
    → l + n ≤ 65535
    → backup < half_range
    → half_range ≤ backup + n
    → (backup_port_bad (pos backup) (pos (l + n)) (pos l) ≡ false) × (65535 < backup)
unfolding backup_port_bad ◌+ℤ◌ ◌-ℤ◌
backup_port_wraps backup l n a b c d = (ground arith, ground arith)
