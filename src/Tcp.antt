-- ===== src/Tcp.antt =====
-- The choice of a TCP backend in internal/proxy/tcp.go and the connectivity that
-- internal/proxy/tcp_health.go reports. Whether a dial succeeds is an argument: it is given the number
-- of the attempt and the address.
pub mod Choice
pub mod Connectivity
use go_nftables_portbridge.Prelude.{
  ℕ, Bool, true, false, ◌&&◌, not, List, [], ◌∷◌, Option, none, some, ltb, ◌==◌, if◌then◌else◌,
}
use go_nftables_portbridge.Text.{Text, text_eq, is_empty}

-- `checkedUnixNano` is 0 before the first check.
pub record TcpTargetState : Type 0 where
  pub primary_reachable : Bool
  pub backup_reachable : Bool
  pub checked_unix_nano : ℕ

pub data Status : Type 0 where
  not_checked primary_reachable backup_reachable warming_up unreachable : Status

-- `CheckedAt` is 0 where it is the zero time.
pub record BackendConnectivity : Type 0 where
  pub status : Status
  pub checked_at : ℕ

-- The table `priority` of `mergeBackendConnectivity`.
abbrev pub priority : Status → ℕ
priority not_checked = 0
priority primary_reachable = 1
priority backup_reachable = 2
priority warming_up = 3
priority unreachable = 4

unfoldable pub merge_backend_connectivity :
    BackendConnectivity → BackendConnectivity → BackendConnectivity
merge_backend_connectivity a b = record {
  status = if ltb (priority a.status) (priority b.status) then b.status else a.status;
  checked_at = if ltb a.checked_at b.checked_at then b.checked_at else a.checked_at;
}

abbrev pub connectivity_of : TcpTargetState → BackendConnectivity
connectivity_of s =
    if ltb 0 s.checked_unix_nano
    then record {
      status =
          if s.primary_reachable
          then primary_reachable
          else if s.backup_reachable
          then backup_reachable
          else unreachable;
      checked_at = s.checked_unix_nano;
    }
    else record { status = warming_up; checked_at = 0 }

abbrev pub merge_states : BackendConnectivity → List TcpTargetState → BackendConnectivity
merge_states result [] = result
merge_states result (s ∷ states) =
    merge_states (merge_backend_connectivity result (connectivity_of s)) states

unfoldable pub backend_connectivity : List TcpTargetState → BackendConnectivity
unfolding merge_backend_connectivity
backend_connectivity states = merge_states (record { status = not_checked; checked_at = 0 }) states

-- The health check has seen the backup up and the primary down.
abbrev pub backup_first : Option TcpTargetState → Bool
backup_first none = false
backup_first (some h) =
    not (h.checked_unix_nano == 0) && not h.primary_reachable && h.backup_reachable

-- Two dials in turn; `cancelled` is the state of the context after the first has failed.
abbrev pub dial_pair : (ℕ → Text → Bool) → Bool → Text → Text → Text → Option (Text × Bool)
dial_pair dial cancelled backup first second =
    if dial 0 first
    then some (first, text_eq first backup)
    else if cancelled
    then none
    else if dial 1 second
    then some (second, text_eq second backup)
    else none

-- The address that was connected, and whether it is the backup; `none` is an error.
unfoldable pub dial_tcp_backend :
    (ℕ → Text → Bool) → Bool → Text → Text → Option TcpTargetState → Option (Text × Bool)
dial_tcp_backend dial cancelled primary backup health =
    if is_empty backup
    then if dial 0 primary then some (primary, false) else none
    else if backup_first health
    then dial_pair dial cancelled backup backup primary
    else dial_pair dial cancelled backup primary backup
