-- ===== src/Telemetry.antt =====
-- The traffic collector, internal/proxy/telemetry.go: series of counters with their rates, and the
-- rows of the collector, one for each forwarding rule. A time is a number of nanoseconds.

pub mod Rows
pub mod Totals
pub mod Rates
pub mod Live
use go_nftables_portbridge.Prelude.{
  ℕ, ◌+◌, ◌-◌, ◌*◌, ◌%◌, ◌^◌, Bool, true, false, ◌&&◌, ◌||◌, not, List, [], ◌∷◌, ◌++◌, Option, none,
  some, any, ◌==◌, ltb, leb, if◌then◌else◌,
}
use go_nftables_portbridge.Text.{Text, codes, text_eq, text_ltb}
use go_nftables_portbridge.Text.Maps.{find_text, put_text}

pub record TrafficCount : Type 0 where
  pub up : ℕ
  pub down : ℕ
  pub packets_up : ℕ
  pub packets_down : ℕ

abbrev pub no_traffic : TrafficCount
no_traffic = record { up = 0; down = 0; packets_up = 0; packets_down = 0 }

-- So much in so many nanoseconds, where the source divides.
pub record Rate : Type 0 where
  pub amount : ℕ
  pub over : ℕ

abbrev pub zero_rate : Rate
zero_rate = record { amount = 0; over = 1 }

-- The zero time is `none`.
pub record TrafficSeries : Type 0 where
  pub bytes_up : ℕ
  pub bytes_down : ℕ
  pub packets_up : ℕ
  pub packets_down : ℕ
  pub bytes_up_per_second : Rate
  pub bytes_down_per_second : Rate
  pub packets_up_per_second : Rate
  pub packets_down_per_second : Rate
  pub sampled_at : Option ℕ
  pub interval : ℕ
  pub available : Bool
  pub rate_ready : Bool

pub record NftHookCounter : Type 0 where
  pub hook : Text
  pub bytes : ℕ
  pub packets : ℕ

pub record NftCounterPoint : Type 0 where
  pub rule : Text
  pub hook : Text
  pub key : Text
  pub bytes : ℕ
  pub packets : ℕ

pub record NftFlowPoint : Type 0 where
  pub rule : Text
  pub key : Text
  pub count : TrafficCount

-- `rules` holds for each rule whether all its flows are accounted for.
pub record NftTelemetry : Type 0 where
  pub hooks : List NftCounterPoint
  pub flows : List NftFlowPoint
  pub rules : List (Text × Bool)

pub record TrafficSnapshot : Type 0 where
  pub go : TrafficSeries
  pub nft : TrafficSeries
  pub nft_hooks : List NftHookCounter
  pub nft_hooks_at : Option ℕ
  pub nft_hooks_available : Bool
  pub nft_best_effort : Bool
  pub nft_status : Text
  pub counter_resets : ℕ

-- `stats` is the identity of a rule's `Stats`, a pointer in the source.
pub record TrafficInput : Type 0 where
  pub id : Text
  pub stats : ℕ
  pub nft : Bool
  pub count : TrafficCount

pub record TrafficHistory : Type 0 where
  pub identity : ℕ
  pub view : TrafficSnapshot
  pub go_previous : TrafficCount
  pub nft_previous : TrafficCount
  pub hooks : List (Text × NftCounterPoint)
  pub flows : List (Text × TrafficCount)
  pub hook_totals : List (Text × NftHookCounter)

abbrev pub max_uint64 : ℕ
max_uint64 = 2 ^ 64 - 1

unfoldable pub add_traffic : ℕ → ℕ → ℕ
add_traffic a b = if ltb (max_uint64 - a) b then max_uint64 else a + b

-- The growth of a counter, and whether it was reset.
unfoldable pub delta_traffic : ℕ → ℕ → ℕ × Bool
delta_traffic current previous =
    if ltb current previous then (current, true) else (current - previous, false)

unfoldable pub count_delta : TrafficCount → TrafficCount → TrafficCount × Bool
unfolding delta_traffic
count_delta current previous =
    let a = delta_traffic current.up previous.up in
    let b = delta_traffic current.down previous.down in
    let c = delta_traffic current.packets_up previous.packets_up in
    let d = delta_traffic current.packets_down previous.packets_down in
    (
      record { up = a.0; down = b.0; packets_up = c.0; packets_down = d.0 },
      a.1 || b.1 || c.1 || d.1,
    )

abbrev pub series_count : TrafficSeries → TrafficCount
series_count s = record {
  up = s.bytes_up;
  down = s.bytes_down;
  packets_up = s.packets_up;
  packets_down = s.packets_down;
}

abbrev pub five_seconds : ℕ
five_seconds = 5000000000

-- The new counts, without rates.
abbrev pub counted : TrafficCount → Bool → TrafficSeries → TrafficSeries
counted current available s = record s {
  bytes_up = current.up;
  bytes_down = current.down;
  packets_up = current.packets_up;
  packets_down = current.packets_down;
  bytes_up_per_second = zero_rate;
  bytes_down_per_second = zero_rate;
  packets_up_per_second = zero_rate;
  packets_down_per_second = zero_rate;
  available = available;
  rate_ready = false;
  interval = 0;
}

abbrev pub rated : TrafficCount → ℕ → TrafficSeries → TrafficSeries
rated delta interval s = record s {
  interval = interval;
  rate_ready = true;
  bytes_up_per_second = record { amount = delta.up; over = interval };
  bytes_down_per_second = record { amount = delta.down; over = interval };
  packets_up_per_second = record { amount = delta.packets_up; over = interval };
  packets_down_per_second = record { amount = delta.packets_down; over = interval };
}

abbrev pub with_rates : Bool → Option ℕ → ℕ → TrafficCount × Bool → TrafficSeries → TrafficSeries
with_rates was_available none now d s = s
with_rates was_available (some last) now d s =
    if was_available && ltb last now && leb (now - last) five_seconds && not d.1
    then rated d.0 (now - last) s
    else s

unfoldable pub set_series : TrafficSeries → TrafficCount → TrafficCount → ℕ → Bool → TrafficSeries
unfolding count_delta
set_series s current previous now available =
    if not available
    then counted current false s
    else with_rates s.available s.sampled_at now (count_delta current previous)
        (record (counted current true s) { sampled_at = some now })

abbrev pub count_or_zero : Option TrafficCount → TrafficCount
count_or_zero none = no_traffic
count_or_zero (some c) = c

abbrev pub bytes_or_zero : Option NftCounterPoint → ℕ × ℕ
bytes_or_zero none = (0, 0)
bytes_or_zero (some p) = (p.bytes, p.packets)

abbrev pub total_or_zero : Option NftHookCounter → ℕ × ℕ
total_or_zero none = (0, 0)
total_or_zero (some t) = (t.bytes, t.packets)

-- `CounterResets++` on a `uint64`.
abbrev pub one_more : Bool → ℕ → ℕ
one_more reset n = if reset then (n + 1) % 2 ^ 64 else n

abbrev pub accumulate : TrafficCount → TrafficCount → TrafficCount
accumulate total delta = record {
  up = add_traffic total.up delta.up;
  down = add_traffic total.down delta.down;
  packets_up = add_traffic total.packets_up delta.packets_up;
  packets_down = add_traffic total.packets_down delta.packets_down;
}

-- What the loop over the flows of a rule has come to.
pub record FlowSum : Type 0 where
  pub total : TrafficCount
  pub resets : ℕ
  pub next : List (Text × TrafficCount)

unfoldable pub sum_flows : Text → List (Text × TrafficCount) → List NftFlowPoint → FlowSum → FlowSum
unfolding count_delta add_traffic
sum_flows id old [] sum = sum
sum_flows id old (p ∷ flows) sum =
    let d = count_delta p.count (count_or_zero (find_text p.key old)) in
    sum_flows id old flows (
      if text_eq p.rule id
      then record {
        total = accumulate sum.total d.0;
        resets = one_more d.1 sum.resets;
        next = put_text p.key p.count sum.next;
      }
      else sum)

pub record HookSum : Type 0 where
  pub totals : List (Text × NftHookCounter)
  pub resets : ℕ
  pub next : List (Text × NftCounterPoint)

unfoldable pub sum_hooks :
    Text → List (Text × NftCounterPoint) → List NftCounterPoint → HookSum → HookSum
unfolding delta_traffic add_traffic
sum_hooks id old [] sum = sum
sum_hooks id old (p ∷ hooks) sum =
    let before = bytes_or_zero (find_text p.key old) in
    let b = delta_traffic p.bytes before.0 in
    let c = delta_traffic p.packets before.1 in
    let total = total_or_zero (find_text p.hook sum.totals) in
    sum_hooks id old hooks (
      if text_eq p.rule id
      then record {
        totals =
            put_text p.hook
              (record {
                hook = p.hook;
                bytes = add_traffic total.0 b.0;
                packets = add_traffic total.1 c.0;
              })
              sum.totals;
        resets = one_more (b.1 || c.1) sum.resets;
        next = put_text p.key p sum.next;
      }
      else sum)
