-- ===== src/Telemetry/Rows.antt =====
-- `update` and `snapshot` of the traffic collector, internal/proxy/telemetry.go.
use go_nftables_portbridge.Prelude.{
  ℕ, ◌-◌, Bool, true, false, ◌&&◌, not, List, [], ◌∷◌, Option, none, some, any, ◌==◌, ltb,
  if◌then◌else◌,
}
use go_nftables_portbridge.Text.{Text, codes, text_eq, text_ltb}
use go_nftables_portbridge.Text.Maps.{find_text, put_text}
use go_nftables_portbridge.Telemetry.{
  no_traffic, zero_rate, TrafficSeries, NftHookCounter, NftTelemetry, TrafficSnapshot, TrafficInput,
  TrafficHistory, set_series, series_count, FlowSum, sum_flows, HookSum, sum_hooks,
}

abbrev pub empty_series : TrafficSeries
empty_series = record {
  bytes_up = 0;
  bytes_down = 0;
  packets_up = 0;
  packets_down = 0;
  bytes_up_per_second = zero_rate;
  bytes_down_per_second = zero_rate;
  packets_up_per_second = zero_rate;
  packets_down_per_second = zero_rate;
  sampled_at = none;
  interval = 0;
  available = false;
  rate_ready = false;
}

abbrev pub empty_snapshot_with : Text → TrafficSnapshot
empty_snapshot_with status = record {
  go = empty_series;
  nft = empty_series;
  nft_hooks = [];
  nft_hooks_at = none;
  nft_hooks_available = false;
  nft_best_effort = false;
  nft_status = status;
  counter_resets = 0;
}

abbrev pub new_history : ℕ → TrafficHistory
new_history identity = record {
  identity = identity;
  view = empty_snapshot_with [];
  go_previous = no_traffic;
  nft_previous = no_traffic;
  hooks = [];
  flows = [];
  hook_totals = [];
}

-- The row of an input: a new one if there is none, or one of other statistics.
abbrev pub row_for : ℕ → Option TrafficHistory → TrafficHistory
row_for stats none = new_history stats
row_for stats (some row) = if row.identity == stats then row else new_history stats

abbrev pub is_true : Option Bool → Bool
is_true none = false
is_true (some b) = b

unfoldable pub insert_hook : NftHookCounter → List NftHookCounter → List NftHookCounter
insert_hook h [] = h ∷ []
insert_hook h (g ∷ hooks) =
    if text_ltb g.hook h.hook then g ∷ insert_hook h hooks else h ∷ g ∷ hooks

unfoldable pub sort_hooks : List (Text × NftHookCounter) → List NftHookCounter
unfolding insert_hook
sort_hooks [] = []
sort_hooks ((key, h) ∷ totals) = insert_hook h (sort_hooks totals)

abbrev pub sampled : Text
sampled = codes "sampled"

-- Whether the kernel's counters of the input were read, and whether all its flows are accounted for.
abbrev pub reads : Text → TrafficInput → Bool
reads status input = input.nft && text_eq status sampled

abbrev pub accounts : NftTelemetry → Text → TrafficInput → Bool
accounts nft status input = reads status input && is_true (find_text input.id nft.rules)

-- The hooks that an input starts from: a rule without kernel rules has none left.
abbrev pub seen_by : {V : Type 0} → TrafficInput → List V → List V
seen_by input seen = if input.nft then seen else []

unfoldable pub hooks_of : NftTelemetry → Text → TrafficInput → TrafficHistory → HookSum
unfolding sum_hooks
hooks_of nft status input row =
    if reads status input
    then sum_hooks input.id row.hooks nft.hooks
        (record { totals = row.hook_totals; resets = row.view.counter_resets; next = [] })
    else (record {
      totals = row.hook_totals;
      resets = row.view.counter_resets;
      next = seen_by input row.hooks;
    })

unfoldable pub flows_of : NftTelemetry → Text → TrafficInput → TrafficHistory → ℕ → FlowSum
unfolding sum_flows
flows_of nft status input row resets =
    if accounts nft status input
    then sum_flows input.id row.flows nft.flows
        (record { total = series_count row.view.nft; resets = resets; next = [] })
    else (record {
      total = series_count row.view.nft;
      resets = resets;
      next = seen_by input row.flows;
    })

abbrev pub status_of : NftTelemetry → Text → TrafficInput → Text
status_of nft status input =
    if not input.nft
    then codes "not_applicable"
    else if text_eq status sampled && not (is_true (find_text input.id nft.rules))
    then codes "accounting_unavailable"
    else status

-- A reset since the last sample leaves no rate.
abbrev pub unless_reset : Bool → TrafficSeries → TrafficSeries
unless_reset reset s = if reset then record s { rate_ready = false } else s

-- The body of the loop over the inputs.
unfoldable pub sample_row : ℕ → NftTelemetry → Text → TrafficInput → TrafficHistory → TrafficHistory
unfolding hooks_of flows_of set_series sort_hooks
sample_row now nft status input row =
    let hooks = hooks_of nft status input row in
    let flows = flows_of nft status input row hooks.resets in
    record {
      identity = row.identity;
      view = record {
        go = set_series row.view.go input.count row.go_previous now true;
        nft =
            unless_reset (not (flows.resets == row.view.counter_resets)) (
              set_series row.view.nft flows.total row.nft_previous now (accounts nft status input));
        nft_hooks = sort_hooks hooks.totals;
        nft_hooks_at = if reads status input then some now else row.view.nft_hooks_at;
        nft_hooks_available = reads status input;
        nft_best_effort = input.nft;
        nft_status = status_of nft status input;
        counter_resets = flows.resets;
      };
      go_previous = input.count;
      nft_previous = flows.total;
      hooks = hooks.next;
      flows = flows.next;
      hook_totals = hooks.totals;
    }

unfoldable pub sample_rows :
    ℕ
    → NftTelemetry
    → Text
    → List TrafficInput
    → List (Text × TrafficHistory)
    → List (Text × TrafficHistory)
unfolding sample_row
sample_rows now nft status [] rows = rows
sample_rows now nft status (i ∷ inputs) rows =
    sample_rows now nft status inputs
      (put_text i.id (sample_row now nft status i (row_for i.stats (find_text i.id rows))) rows)

abbrev pub is_live : List TrafficInput → Text → Bool
is_live inputs id = any (λ i. text_eq i.id id) inputs

-- The rows of rules that are gone go.
unfoldable pub keep_live :
    List TrafficInput → List (Text × TrafficHistory) → List (Text × TrafficHistory)
keep_live inputs [] = []
keep_live inputs ((id, row) ∷ rows) =
    let rest = keep_live inputs rows in if is_live inputs id then (id, row) ∷ rest else rest

unfoldable pub update :
    ℕ
    → List TrafficInput
    → NftTelemetry
    → Text
    → List (Text × TrafficHistory)
    → List (Text × TrafficHistory)
unfolding keep_live sample_rows
update now inputs nft status rows = keep_live inputs (sample_rows now nft status inputs rows)

abbrev pub three_seconds : ℕ
three_seconds = 3000000000

abbrev pub is_stale : ℕ → Option ℕ → Bool
is_stale now none = true
is_stale now (some t) = ltb three_seconds (now - t)

abbrev pub unless_stale : ℕ → TrafficSeries → TrafficSeries
unless_stale now s =
    if is_stale now s.sampled_at then record s { available = false; rate_ready = false } else s

abbrev pub aged : ℕ → TrafficSnapshot → TrafficSnapshot
aged now v =
    let old = is_stale now v.nft_hooks_at in
    record v {
      go = unless_stale now v.go;
      nft = unless_stale now v.nft;
      nft_hooks_available = if old then false else v.nft_hooks_available;
      nft_status = if old && v.nft_best_effort then codes "stale" else v.nft_status;
    }

abbrev pub view_of : ℕ → ℕ → Option TrafficHistory → TrafficSnapshot
view_of identity now none = empty_snapshot_with (codes "pending")
view_of identity now (some row) =
    if row.identity == identity then aged now row.view else empty_snapshot_with (codes "pending")

unfoldable pub traffic_snapshot : Text → ℕ → ℕ → List (Text × TrafficHistory) → TrafficSnapshot
traffic_snapshot id identity now rows = view_of identity now (find_text id rows)
