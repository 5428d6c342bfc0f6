-- ===== src/Tcp/Connectivity.antt =====
-- `backendConnectivity` of internal/proxy/tcp_health.go against the states of the endpoints.
use go_nftables_portbridge.Prelude.{
  ◌≤◌, ◌≡◌, refl, List, [], ◌∷◌, arith, ltb, All, ◌⊎◌, inl, inr, Bool-cases, ◌∙◌,
}
use go_nftables_portbridge.Text.Members.{Any}
use go_nftables_portbridge.Tcp.{
  TcpTargetState, Status, not_checked, BackendConnectivity, priority, merge_backend_connectivity,
  connectivity_of, merge_states, backend_connectivity,
}

merge-le :
    (a b : BackendConnectivity)
    → (priority a.status ≤ priority (merge_backend_connectivity a b).status)
      × (priority b.status ≤ priority (merge_backend_connectivity a b).status)
unfolding merge_backend_connectivity
merge-le a b = elim (Bool-cases (ltb (priority a.status) (priority b.status))) [
  | inl worse ↦ rw worse (ground arith, omega arith)
  | inr fine ↦ rw fine (omega arith, ground arith)
]

merge_states-le :
    (result : BackendConnectivity) (states : List TcpTargetState)
    → (priority result.status ≤ priority (merge_states result states).status)
      × All
          (λ s. priority (connectivity_of s).status ≤ priority (merge_states result states).status)
          states
merge_states-le result [] = (omega arith, tt)
merge_states-le result (s ∷ states) =
    let (before, here) = merge-le result (connectivity_of s) in
    let (later, all) =
      merge_states-le (merge_backend_connectivity result (connectivity_of s)) states in
    (omega (arith, before, later), (omega (arith, here, later), all))

-- The status of a merge is one of the two.
merge-either :
    (a b : BackendConnectivity)
    → ((merge_backend_connectivity a b).status ≡ a.status)
      ⊎ ((merge_backend_connectivity a b).status ≡ b.status)
unfolding merge_backend_connectivity
merge-either a b = elim (Bool-cases (ltb (priority a.status) (priority b.status))) [
  | inl worse ↦ rw worse (inr refl)
  | inr fine ↦ rw fine (inl refl)
]

-- The status of a list is that of the start or of some endpoint.
merge_states-Any :
    (result : BackendConnectivity) (states : List TcpTargetState)
    → ((merge_states result states).status ≡ result.status)
      ⊎ Any (λ s. (merge_states result states).status ≡ (connectivity_of s).status) states
merge_states-Any result [] = inl refl
merge_states-Any result (s ∷ states) =
    joined (merge-either result (connectivity_of s))
      (merge_states-Any (merge_backend_connectivity result (connectivity_of s)) states)
  where
    joined :
        {end : Status} {rest : Type 0} {m : Status}
        → (m ≡ result.status) ⊎ (m ≡ (connectivity_of s).status)
        → (end ≡ m) ⊎ rest
        → (end ≡ result.status) ⊎ ((end ≡ (connectivity_of s).status) ⊎ rest)
    joined (inl e) (inl f) = inl (f ∙ e)
    joined (inr e) (inl f) = inr (inl (f ∙ e))
    joined e (inr later) = inr (inr later)

-- The reported status is at least as bad as each endpoint's, in the order primary reachable, backup
-- reachable, warming up, unreachable; and it is the status of some endpoint, or there is nothing
-- checked to report.
pub backend_connectivity_worst :
    (states : List TcpTargetState)
    → let c = backend_connectivity states in
      All (λ s. priority (connectivity_of s).status ≤ priority c.status) states
      × ((c.status ≡ not_checked) ⊎ Any (λ s. c.status ≡ (connectivity_of s).status) states)
unfolding backend_connectivity
backend_connectivity_worst states =
    let start : BackendConnectivity = record { status = not_checked; checked_at = 0 } in
    ((merge_states-le start states).1, merge_states-Any start states)
