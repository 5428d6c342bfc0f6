-- ===== src/Examples/Telemetries.antt =====
-- Witnesses on the traffic collector: one rule with kernel rules and one without.
use go_nftables_portbridge.Prelude.{
  ◌+◌, ◌≤◌, ◌≡◌, refl, true, false, List, [], ◌∷◌, some, none, All, if◌then◌else◌, arith,
}
use go_nftables_portbridge.Text.{Text, codes, text_eq}
use go_nftables_portbridge.Text.Maps.{find_text}
use go_nftables_portbridge.Telemetry.{
  TrafficCount, TrafficSeries, NftTelemetry, TrafficInput, TrafficHistory, no_traffic, set_series,
  count_delta, delta_traffic, series_count,
}
use go_nftables_portbridge.Telemetry.Rows.{
  new_history, empty_series, sample_row, update, is_live, accounts,
}
use go_nftables_portbridge.Telemetry.Totals.{bytes_sent, pick, growth, saturated, sample_row-totals}
use go_nftables_portbridge.Telemetry.Rates.{IsRated, set_series-IsRated}
use go_nftables_portbridge.Telemetry.Live.{Follows, update_exact}

abbrev some_traffic : TrafficCount
some_traffic = record { up = 700; down = 90; packets_up = 7; packets_down = 3 }

abbrev kernel_reading : NftTelemetry
kernel_reading = record {
  hooks = [];
  flows = record { rule = codes "web"; key = codes "f"; count = some_traffic } ∷ [];
  rules = (codes "web", true) ∷ [];
}

abbrev web_input : TrafficInput
web_input = record { id = codes "web"; stats = 1; nft = true; count = no_traffic }

abbrev dns_input : TrafficInput
dns_input = record { id = codes "dns"; stats = 2; nft = false; count = some_traffic }

abbrev old_rows : List (Text × TrafficHistory)
old_rows = (codes "web", new_history 1) ∷ (codes "gone", new_history 3) ∷ []

sample_row-totals_example :
    (pick bytes_sent (
        series_count
          (sample_row 8 kernel_reading (codes "sampled") web_input (new_history 1)).view.nft)
      ≡ (if accounts kernel_reading (codes "sampled") web_input
          then saturated (0 + growth bytes_sent (codes "web") [] kernel_reading.flows)
          else 0))
    × (0
        ≤ pick bytes_sent (
            series_count
              (sample_row 8 kernel_reading (codes "sampled") web_input (new_history 1)).view.nft))
sample_row-totals_example =
    sample_row-totals bytes_sent 8 kernel_reading (codes "sampled") web_input (new_history 1)
      (omega arith)

abbrev second_ago : TrafficSeries
second_ago = record empty_series { sampled_at = some 5; available = true }

set_series-IsRated_example :
    (true ≡ true)
    × IsRated second_ago some_traffic no_traffic 1000000005
        (set_series second_ago some_traffic no_traffic 1000000005 true)
unfolding set_series count_delta delta_traffic
set_series-IsRated_example =
    set_series-IsRated second_ago some_traffic no_traffic 1000000005 true refl

-- The row of "web" goes on, the one of "dns" was one of other statistics.
abbrev mixed_rows : List (Text × TrafficHistory)
mixed_rows = (codes "dns", new_history 9) ∷ old_rows

update_exact_example :
    All
      (λ i. Follows 8 kernel_reading (codes "sampled") i (find_text i.id mixed_rows) (
        find_text i.id
          (update 8 (web_input ∷ dns_input ∷ []) kernel_reading (codes "sampled") mixed_rows)))
      (web_input ∷ dns_input ∷ [])
    × ((id : Text)
        → is_live (web_input ∷ dns_input ∷ []) id ≡ false
        → find_text id
            (update 8 (web_input ∷ dns_input ∷ []) kernel_reading (codes "sampled") mixed_rows)
          ≡ none)
unfolding text_eq
update_exact_example =
    update_exact 8 kernel_reading (codes "sampled") (web_input ∷ dns_input ∷ []) mixed_rows
      (refl, (refl, tt))
