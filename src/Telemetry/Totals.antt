-- ===== src/Telemetry/Totals.antt =====
-- The kernel totals of the traffic collector, internal/proxy/telemetry.go: what they add up.
use go_nftables_portbridge.Prelude.{
  ℕ, ◌+◌, ◌-◌, ◌≤◌, ◌≡◌, refl, Bool, true, false, ◌&&◌, not, List, [], ◌∷◌, Option, none, some, ltb,
  leb, if◌then◌else◌, arith, ◌∙◌, ap,
}
use go_nftables_portbridge.Text.{Text, text_eq}
use go_nftables_portbridge.Text.Maps.{find_text, put_text}
use go_nftables_portbridge.Telemetry.{
  TrafficCount, TrafficSeries, NftFlowPoint, NftTelemetry, TrafficInput, TrafficHistory, max_uint64,
  add_traffic, delta_traffic, count_delta, series_count, set_series, count_or_zero, accumulate,
  FlowSum, sum_flows, one_more, with_rates, rated, five_seconds,
}
use go_nftables_portbridge.Telemetry.Rows.{
  accounts, flows_of, hooks_of, sample_row, unless_reset, seen_by,
}

-- One of the four counters.
pub data Counter : Type 0 where
  bytes_sent bytes_received packets_sent packets_received : Counter

abbrev pub pick : Counter → TrafficCount → ℕ
pick bytes_sent c = c.up
pick bytes_received c = c.down
pick packets_sent c = c.packets_up
pick packets_received c = c.packets_down

-- A sum that stops at the largest `uint64`.
abbrev pub saturated : ℕ → ℕ
saturated n = if ltb max_uint64 n then max_uint64 else n

-- What the flows of a rule have grown by, the whole of one that is new or was reset.
abbrev pub growth : Counter → Text → List (Text × TrafficCount) → List NftFlowPoint → ℕ
growth c id old [] = 0
growth c id old (p ∷ flows) =
    (if text_eq p.rule id
      then if ltb (pick c p.count) (pick c (count_or_zero (find_text p.key old)))
        then pick c p.count
        else pick c p.count - pick c (count_or_zero (find_text p.key old))
      else 0)
    + growth c id old flows

add_traffic-saturated : (a b : ℕ) → a ≤ max_uint64 → add_traffic a b ≡ saturated (a + b)
unfolding add_traffic
add_traffic-saturated a b h = ground arith

delta-pick :
    (c : Counter) (current previous : TrafficCount)
    → pick c (count_delta current previous).0 ≡ (
        if ltb (pick c current) (pick c previous)
        then pick c current
        else pick c current - pick c previous)
unfolding count_delta delta_traffic
delta-pick bytes_sent current previous = ground arith
delta-pick bytes_received current previous = ground arith
delta-pick packets_sent current previous = ground arith
delta-pick packets_received current previous = ground arith

accumulate-pick :
    (c : Counter) (total delta : TrafficCount)
    → pick c (accumulate total delta) ≡ add_traffic (pick c total) (pick c delta)
accumulate-pick bytes_sent total delta = refl
accumulate-pick bytes_received total delta = refl
accumulate-pick packets_sent total delta = refl
accumulate-pick packets_received total delta = refl

sum_flows-pick :
    (c : Counter) (id : Text) (old : List (Text × TrafficCount)) (flows : List NftFlowPoint)
    (sum : FlowSum)
    → pick c sum.total ≤ max_uint64
    → pick c (sum_flows id old flows sum).total
      ≡ saturated (pick c sum.total + growth c id old flows)
unfolding sum_flows
sum_flows-pick c id old [] sum h = ground arith
sum_flows-pick c id old (p ∷ flows) sum h =
    step (text_eq p.rule id) (sum_flows-pick c id old flows added fits)
      (sum_flows-pick c id old flows sum h)
  where
    before : TrafficCount
    before = count_or_zero (find_text p.key old)

    d : TrafficCount × Bool
    d = count_delta p.count before

    grown : ℕ
    grown =
        if ltb (pick c p.count) (pick c before)
        then pick c p.count
        else pick c p.count - pick c before

    added : FlowSum
    added = record {
      total = accumulate sum.total d.0;
      resets = one_more d.1 sum.resets;
      next = put_text p.key p.count sum.next;
    }

    total_added : pick c added.total ≡ saturated (pick c sum.total + grown)
    total_added =
        accumulate-pick c sum.total d.0
        ∙ rw (delta-pick c p.count before) (add_traffic-saturated (pick c sum.total) grown h)

    below : (n : ℕ) → saturated n ≤ max_uint64
    below n = ground arith

    fits : pick c added.total ≤ max_uint64
    fits = rw total_added (below (pick c sum.total + grown))

    zero_left : (n : ℕ) → n ≡ 0 + n
    zero_left n = omega arith

    twice : (a b e : ℕ) → saturated (saturated (a + b) + e) ≡ saturated (a + (b + e))
    twice a b e = ground arith

    step :
        (own : Bool)
        → pick c (sum_flows id old flows added).total
          ≡ saturated (pick c added.total + growth c id old flows)
        → pick c (sum_flows id old flows sum).total
          ≡ saturated (pick c sum.total + growth c id old flows)
        → pick c (sum_flows id old flows (if own then added else sum)).total
          ≡ saturated (pick c sum.total + ((if own then grown else 0) + growth c id old flows))
    step true one other =
        one
        ∙ ap (λ n. saturated (n + growth c id old flows)) total_added
        ∙ twice (pick c sum.total) grown (growth c id old flows)
    step false one other = other ∙ ap (λ n. saturated (pick c sum.total + n)) (zero_left _)

with_rates-count :
    (was_available : Bool) (sampled : Option ℕ) (now : ℕ) (d : TrafficCount × Bool)
    (s : TrafficSeries)
    → series_count (with_rates was_available sampled now d s) ≡ series_count s
with_rates-count was_available none now d s = refl
with_rates-count was_available (some last) now d s =
    either (was_available && ltb last now && leb (now - last) five_seconds && not d.1)
  where
    either : (b : Bool) → series_count (if b then rated d.0 (now - last) s else s) ≡ series_count s
    either true = refl
    either false = refl

pub set_series-count :
    (s : TrafficSeries) (current previous : TrafficCount) (now : ℕ) (available : Bool)
    → series_count (set_series s current previous now available) ≡ current
unfolding set_series
set_series-count s current previous now true =
    with_rates-count s.available s.sampled_at now (count_delta current previous) _
set_series-count s current previous now false = refl

unless_reset-count :
    (reset : Bool) (s : TrafficSeries) → series_count (unless_reset reset s) ≡ series_count s
unless_reset-count true s = refl
unless_reset-count false s = refl

-- After a sample each kernel total of a rule is what it was and what the rule's flows have grown by,
-- up to the largest `uint64`, where all of them are accounted for, and is left alone otherwise; in
-- either case it does not fall.
pub sample_row-totals :
    (c : Counter) (now : ℕ) (nft : NftTelemetry) (status : Text) (input : TrafficInput)
    (row : TrafficHistory)
    → pick c (series_count row.view.nft) ≤ max_uint64
    → (pick c (series_count (sample_row now nft status input row).view.nft) ≡ (
        if accounts nft status input
        then saturated (pick c (series_count row.view.nft) + growth c input.id row.flows nft.flows)
        else pick c (series_count row.view.nft)))
      × (pick c (series_count row.view.nft)
          ≤ pick c (series_count (sample_row now nft status input row).view.nft))
unfolding sample_row flows_of
sample_row-totals c now nft status input row h =
    let total = (flows_of nft status input row (hooks_of nft status input row).resets).total in
    let shown : series_count (sample_row now nft status input row).view.nft ≡ total =
      unless_reset-count _ _ ∙ set_series-count row.view.nft total row.nft_previous now _ in
    let (exact, kept) = summed (accounts nft status input) in
    (ap (pick c) shown ∙ exact, rw shown kept)
  where
    before : ℕ
    before = pick c (series_count row.view.nft)

    below : (a g : ℕ) → a ≤ max_uint64 → a ≤ saturated (a + g)
    below a g h = ground arith

    summed :
        (b : Bool)
        → (pick c
              (if b
                then sum_flows input.id row.flows nft.flows (record {
                  total = series_count row.view.nft;
                  resets = (hooks_of nft status input row).resets;
                  next = [];
                })
                else (record {
                  total = series_count row.view.nft;
                  resets = (hooks_of nft status input row).resets;
                  next = seen_by input row.flows;
                })).total
            ≡ (if b then saturated (before + growth c input.id row.flows nft.flows) else before))
          × (before
              ≤ pick c
                  (if b
                    then sum_flows input.id row.flows nft.flows (record {
                      total = series_count row.view.nft;
                      resets = (hooks_of nft status input row).resets;
                      next = [];
                    })
                    else (record {
                      total = series_count row.view.nft;
                      resets = (hooks_of nft status input row).resets;
                      next = seen_by input row.flows;
                    })).total)
    summed true =
        let exact =
          sum_flows-pick c input.id row.flows nft.flows
            (record {
              total = series_count row.view.nft;
              resets = (hooks_of nft status input row).resets;
              next = [];
            })
            h in
        (exact, rw exact (below before (growth c input.id row.flows nft.flows) h))
    summed false = (refl, omega arith)
