-- ===== src/Telemetry/Rates.antt =====
-- The rates of the traffic collector, internal/proxy/telemetry.go: when there is one.
use go_nftables_portbridge.Prelude.{
  ℕ, ◌+◌, ◌-◌, ◌≤◌, ◌<◌, ◌≡◌, refl, Bool, true, false, ◌&&◌, ◌||◌, not, Option, none, some, ltb,
  leb, if◌then◌else◌, arith, ltb→lt, leb→le,
}
use go_nftables_portbridge.Telemetry.{
  TrafficCount, TrafficSeries, Rate, set_series, count_delta, delta_traffic, with_rates, rated,
  counted, five_seconds,
}

-- The rate is what the counter has grown by since the time, and the counter has not fallen.
abbrev pub IsGrowth : Rate → ℕ → ℕ → ℕ → ℕ → Type 0
IsGrowth r current previous last now = (r.amount + previous ≡ current) × (r.over + last ≡ now)

-- A series with rates: those since its last sample, at most five seconds ago, of counters that have
-- not been reset.
pub record IsRated (s : TrafficSeries) (current previous : TrafficCount) (now : ℕ)
    (t : TrafficSeries) : Type 0 where
  pub last : ℕ
  pub was_available : s.available ≡ true
  pub was_sampled : s.sampled_at ≡ some last
  pub later : last < now
  pub soon : now ≤ last + five_seconds
  pub bytes_up : IsGrowth t.bytes_up_per_second current.up previous.up last now
  pub bytes_down : IsGrowth t.bytes_down_per_second current.down previous.down last now
  pub packets_up : IsGrowth t.packets_up_per_second current.packets_up previous.packets_up last now
  pub packets_down :
      IsGrowth t.packets_down_per_second current.packets_down previous.packets_down last now

no_reset :
    (current previous : ℕ)
    → (delta_traffic current previous).1 ≡ false
    → (delta_traffic current previous).0 + previous ≡ current
unfolding delta_traffic
no_reset current previous h = ground arith

-- A series has rates after a sample only if it was available, its last sample is in the past, at
-- most five seconds ago, and no counter has fallen since; then each rate is the growth of its counter
-- over the time between the two samples. A series that is not available has none.
pub set_series-IsRated :
    (s : TrafficSeries) (current previous : TrafficCount) (now : ℕ) (available : Bool)
    → (set_series s current previous now available).rate_ready ≡ true
    → (available ≡ true)
      × IsRated s current previous now (set_series s current previous now available)
unfolding set_series count_delta
set_series-IsRated s current previous now false h = absurd cc
set_series-IsRated s current previous now true h = (refl, at_time s.sampled_at refl h)
  where
    d : TrafficCount × Bool
    d = count_delta current previous

    fresh : TrafficSeries
    fresh = record (counted current true s) { sampled_at = some now }

    conj :
        (a b c e f g i : Bool)
        → (a && b && c && not (e || f || g || i)) ≡ true
        → (a ≡ true)
          × (b ≡ true)
          × (c ≡ true)
          × (e ≡ false)
          × (f ≡ false)
          × (g ≡ false)
          × (i ≡ false)
    conj true true true false false false false h = (refl, refl, refl, refl, refl, refl, refl)
    conj a b c e f g i h = ground arith

    since : (last : ℕ) → last < now → (now - last) + last ≡ now
    since last h = omega arith

    within_five : (last : ℕ) → (now - last) ≤ five_seconds → now ≤ last + five_seconds
    within_five last h = omega arith

    at_time :
        (o : Option ℕ)
        → s.sampled_at ≡ o
        → (with_rates s.available o now d fresh).rate_ready ≡ true
        → IsRated s current previous now (with_rates s.available o now d fresh)
    at_time none e h = absurd cc
    at_time (some last) e h =
        branch (s.available && ltb last now && leb (now - last) five_seconds && not d.1) refl h
      where
        branch :
            (b : Bool)
            → (s.available && ltb last now && leb (now - last) five_seconds && not d.1) ≡ b
            → (if b then rated d.0 (now - last) fresh else fresh).rate_ready ≡ true
            → IsRated s current previous now (if b then rated d.0 (now - last) fresh else fresh)
        branch false t h = absurd cc
        branch true t h =
            let (a, b, c, r1, r2, r3, r4) = conj _ _ _ _ _ _ _ t in
            let before = ltb→lt last now b in
            record {
              last = last;
              was_available = a;
              was_sampled = e;
              later = before;
              soon = within_five last (leb→le (now - last) five_seconds c);
              bytes_up = (no_reset current.up previous.up r1, since last before);
              bytes_down = (no_reset current.down previous.down r2, since last before);
              packets_up = (no_reset current.packets_up previous.packets_up r3, since last before);
              packets_down =
                  (no_reset current.packets_down previous.packets_down r4, since last before);
            }
