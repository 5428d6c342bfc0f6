-- ===== src/Telemetry/Live.antt =====
-- The rows of the traffic collector, internal/proxy/telemetry.go, after `update`.
use go_nftables_portbridge.Prelude.{
  ltb, leb, not, ◌&&◌, ◌-◌, ℕ, ◌≡◌, ◌+◌, ◌≤◌, ◌==◌, if◌then◌else◌, Option, refl, ◌⊎◌, Bool, true,
  false, ◌||◌, List, [], ◌∷◌, none, some, All, arith, ◌∙◌, ap, Bool-cases, inl, inr,
}
use go_nftables_portbridge.Text.{Text, text_eq, text_eq_sound, text_eq_refl}
use go_nftables_portbridge.Text.Maps.{find_text, put_text}
use go_nftables_portbridge.Text.Finds.{find-put, find-put_other}
use go_nftables_portbridge.Telemetry.{
  NftTelemetry, TrafficInput, TrafficHistory, TrafficCount, TrafficSeries, series_count, set_series,
  no_traffic, max_uint64, with_rates, rated, five_seconds, count_delta,
}
use go_nftables_portbridge.Telemetry.Totals.{
  Counter, bytes_sent, bytes_received, packets_sent, packets_received, pick, growth, saturated,
  sample_row-totals, set_series-count,
}
use go_nftables_portbridge.Telemetry.Rows.{
  sample_row, sample_rows, row_for, new_history, empty_series, unless_reset, accounts, is_live,
  keep_live, update,
}

-- The identifiers differ, as the keys of a map do.
abbrev pub DistinctIds : List TrafficInput → Type 0
DistinctIds [] = Unit {0}
DistinctIds (i ∷ inputs) = (is_live inputs i.id ≡ false) × DistinctIds inputs

keep_live-find :
    (inputs : List TrafficInput) (id : Text) (rows : List (Text × TrafficHistory))
    → is_live inputs id ≡ true
    → find_text id (keep_live inputs rows) ≡ find_text id rows
unfolding keep_live
keep_live-find inputs id [] h = refl
keep_live-find inputs id ((j, row) ∷ rows) h = elim (Bool-cases (text_eq j id)) [
  | inl same ↦
      let e : j ≡ id = text_eq_sound j id same in
      let live : is_live inputs j ≡ true = rw e h in rw (live, same) refl
  | inr other ↦ elim (Bool-cases (is_live inputs j)) [
    | inl live ↦ rw (live, other) (keep_live-find inputs id rows h)
    | inr dead ↦ rw (dead, other) (keep_live-find inputs id rows h)
  ]
]

keep_live-gone :
    (inputs : List TrafficInput) (id : Text) (rows : List (Text × TrafficHistory))
    → is_live inputs id ≡ false
    → find_text id (keep_live inputs rows) ≡ none
unfolding keep_live
keep_live-gone inputs id [] h = refl
keep_live-gone inputs id ((j, row) ∷ rows) h = elim (Bool-cases (is_live inputs j)) [
  | inl live ↦ elim (Bool-cases (text_eq j id)) [
    | inl same ↦
        let e : j ≡ id = text_eq_sound j id same in
        let dead : is_live inputs j ≡ false = rw e h in absurd cc
    | inr other ↦ rw (live, other) (keep_live-gone inputs id rows h)
  ]
  | inr dead ↦ rw dead (keep_live-gone inputs id rows h)
]

text_eq_away : (s t : Text) → text_eq s t ≡ false → text_eq t s ≡ false
text_eq_away s t h = elim (Bool-cases (text_eq t s)) [
  | inl same ↦
      let e : t ≡ s = text_eq_sound t s same in
      let again : text_eq s t ≡ true = rw e (text_eq_refl s) in absurd cc
  | inr away ↦ away
]

or_left : (a b : Bool) → (a || b) ≡ false → a ≡ false
or_left a b h = ground arith

or_right : (a b : Bool) → (a || b) ≡ false → b ≡ false
or_right a b h = ground arith

live_later :
    (i : TrafficInput) (inputs some_inputs : List TrafficInput)
    → All (λ j. is_live inputs j.id ≡ true) some_inputs
    → All (λ j. is_live (i ∷ inputs) j.id ≡ true) some_inputs
live_later i inputs [] h = tt
live_later i inputs (j ∷ rest) (h, g) = (later _ _ h, live_later i inputs rest g)
  where
    later : (a b : Bool) → b ≡ true → (a || b) ≡ true
    later a b h = ground arith

All-live : (inputs : List TrafficInput) → All (λ j. is_live inputs j.id ≡ true) inputs
All-live [] = tt
All-live (i ∷ inputs) = (rw (text_eq_refl i.id) refl, live_later i inputs inputs (All-live inputs))

module _ (now : ℕ) (nft : NftTelemetry) (status : Text) where
  abbrev sampled_for : List (Text × TrafficHistory) → TrafficInput → TrafficHistory
  sampled_for rows i = sample_row now nft status i (row_for i.stats (find_text i.id rows))

  sample_rows-other :
      (inputs : List TrafficInput) (id : Text) (rows : List (Text × TrafficHistory))
      → is_live inputs id ≡ false
      → find_text id (sample_rows now nft status inputs rows) ≡ find_text id rows
  unfolding sample_rows
  sample_rows-other [] id rows h = refl
  sample_rows-other (i ∷ inputs) id rows h =
      sample_rows-other inputs id (put_text i.id (sampled_for rows i) rows) (or_right _ _ h)
      ∙ find-put_other i.id id (sampled_for rows i) rows (or_left _ _ h)

  sampled_for-put :
      (i : TrafficInput) (row : TrafficHistory) (rows m : List (Text × TrafficHistory))
      (inputs : List TrafficInput)
      → is_live inputs i.id ≡ false
      → All (λ j. find_text j.id m ≡ some (sampled_for (put_text i.id row rows) j)) inputs
      → All (λ j. find_text j.id m ≡ some (sampled_for rows j)) inputs
  sampled_for-put i row rows m [] h g = tt
  sampled_for-put i row rows m (j ∷ inputs) h (f, g) =
      let unmoved : find_text j.id (put_text i.id row rows) ≡ find_text j.id rows =
        find-put_other i.id j.id row rows (text_eq_away j.id i.id (or_left _ _ h)) in
      (
        f ∙ ap (λ o. some (sample_row now nft status j (row_for j.stats o))) unmoved,
        sampled_for-put i row rows m inputs (or_right _ _ h) g,
      )

  sample_rows-each :
      (inputs : List TrafficInput) (rows : List (Text × TrafficHistory))
      → DistinctIds inputs
      → All
          (λ i. find_text i.id (sample_rows now nft status inputs rows) ≡ some (sampled_for rows i))
          inputs
  unfolding sample_rows
  sample_rows-each [] rows h = tt
  sample_rows-each (i ∷ inputs) rows (fresh, h) =
      let row = sampled_for rows i in
      let after = put_text i.id row rows in
      (
        sample_rows-other inputs i.id after fresh ∙ find-put i.id row rows,
        sampled_for-put i row rows _ inputs fresh (sample_rows-each inputs after h),
      )

  -- One row after an update for each input, sampled from the one that the loop starts from.
  update_rows :
      (inputs : List TrafficInput) (rows : List (Text × TrafficHistory))
      → DistinctIds inputs
      → All
          (λ i. find_text i.id (update now inputs nft status rows) ≡ some (sampled_for rows i))
          inputs
        × ((id : Text)
            → is_live inputs id ≡ false
            → find_text id (update now inputs nft status rows) ≡ none)
  unfolding update
  update_rows inputs rows h = (
    both inputs (All-live inputs) (sample_rows-each inputs rows h),
    λ id dead. keep_live-gone inputs id (sample_rows now nft status inputs rows) dead,
  )
    where
      both :
          (some_inputs : List TrafficInput)
          → All (λ i. is_live inputs i.id ≡ true) some_inputs
          → All
              (λ i.
                find_text i.id (sample_rows now nft status inputs rows) ≡ some (sampled_for rows i))
              some_inputs
          → All
              (λ i. find_text i.id (update now inputs nft status rows) ≡ some (sampled_for rows i))
              some_inputs
      both [] f g = tt
      both (i ∷ rest) (f, fs) (g, gs) = (keep_live-find inputs i.id _ f ∙ g, both rest fs gs)

  -- The row that was there, if any, is not of these statistics.
  abbrev pub IsOther : ℕ → Option TrafficHistory → Type 0
  IsOther stats none = Unit {0}
  IsOther stats (some row) = ¬ (row.identity ≡ stats)

  -- A row without rates whose kernel totals start from zero.
  pub record StartsAnew (i : TrafficInput) (r : TrafficHistory) : Type 0 where
    pub go_rate : r.view.go.rate_ready ≡ false
    pub nft_rate : r.view.nft.rate_ready ≡ false
    pub totals :
        (c : Counter)
        → pick c (series_count r.view.nft)
          ≡ (if accounts nft status i then saturated (growth c i.id [] nft.flows) else 0)
    pub first : r ≡ sample_row now nft status i (new_history i.stats)

  -- The row that was there is of these statistics and has one more sample.
  pub record GoesOn (i : TrafficInput) (before : Option TrafficHistory) (r : TrafficHistory)
      : Type 0 where
    pub row : TrafficHistory
    pub was_there : before ≡ some row
    pub same : row.identity ≡ i.stats
    pub next : r ≡ sample_row now nft status i row

  -- What an update makes of the row that an input had.
  pub record Follows (i : TrafficInput) (before after : Option TrafficHistory) : Type 0 where
    pub row : TrafficHistory
    pub is_there : after ≡ some row
    pub identity : row.identity ≡ i.stats
    pub counts : (series_count row.view.go ≡ i.count) × (row.go_previous ≡ i.count)
    pub sampled : row.view.go.sampled_at ≡ some now
    pub origin : (IsOther i.stats before × StartsAnew i row) ⊎ GoesOn i before row

  anew_unrated :
      (current : TrafficCount) (available : Bool)
      → (set_series empty_series current no_traffic now available).rate_ready ≡ false
  unfolding set_series
  anew_unrated current true = refl
  anew_unrated current false = refl

  unless_reset-unrated :
      (reset : Bool) (s : TrafficSeries)
      → s.rate_ready ≡ false
      → (unless_reset reset s).rate_ready ≡ false
  unless_reset-unrated true s h = refl
  unless_reset-unrated false s h = h

  anew : (i : TrafficInput) → StartsAnew i (sample_row now nft status i (new_history i.stats))
  unfolding sample_row
  anew i = record {
    go_rate = anew_unrated i.count true;
    nft_rate = unless_reset-unrated _ _ (anew_unrated _ (accounts nft status i));
    totals = λ c.
        (sample_row-totals c now nft status i (new_history i.stats) (zero_fits c)).0 ∙ from_zero c;
    first = refl;
  }
    where
      none_yet : (c : Counter) → pick c (series_count empty_series) ≡ 0
      none_yet bytes_sent = refl
      none_yet bytes_received = refl
      none_yet packets_sent = refl
      none_yet packets_received = refl

      zero_fits : (c : Counter) → pick c (series_count empty_series) ≤ max_uint64
      zero_fits c = rw (none_yet c) (omega arith)

      from_zero :
          (c : Counter)
          → (if accounts nft status i
              then saturated (pick c (series_count empty_series) + growth c i.id [] nft.flows)
              else pick c (series_count empty_series))
            ≡ (if accounts nft status i then saturated (growth c i.id [] nft.flows) else 0)
      from_zero c = rw (none_yet c) (ground arith)

  sample_row-identity :
      (i : TrafficInput) (row : TrafficHistory)
      → (sample_row now nft status i row).identity ≡ row.identity
  unfolding sample_row
  sample_row-identity i row = refl

  sample_row-counts :
      (i : TrafficInput) (row : TrafficHistory)
      → let r = sample_row now nft status i row in
        (series_count r.view.go ≡ i.count) × (r.go_previous ≡ i.count)
  unfolding sample_row
  sample_row-counts i row = (set_series-count row.view.go i.count row.go_previous now true, refl)

  with_rates-sampled_at :
      (was_available : Bool) (last : Option ℕ) (d : TrafficCount × Bool) (s : TrafficSeries)
      → (with_rates was_available last now d s).sampled_at ≡ s.sampled_at
  with_rates-sampled_at was_available none d s = refl
  with_rates-sampled_at was_available (some last) d s =
      either (was_available && ltb last now && leb (now - last) five_seconds && not d.1)
    where
      either : (b : Bool) → (if b then rated d.0 (now - last) s else s).sampled_at ≡ s.sampled_at
      either true = refl
      either false = refl

  sample_row-sampled_at :
      (i : TrafficInput) (row : TrafficHistory)
      → (sample_row now nft status i row).view.go.sampled_at ≡ some now
  unfolding sample_row set_series
  sample_row-sampled_at i row =
      with_rates-sampled_at row.view.go.available row.view.go.sampled_at
        (count_delta i.count row.go_previous) _

  Follows-anew :
      (i : TrafficInput) (before after : Option TrafficHistory)
      → after ≡ some (sample_row now nft status i (new_history i.stats))
      → IsOther i.stats before
      → Follows i before after
  Follows-anew i before after e other =
      let start = new_history i.stats in
      record {
        row = sample_row now nft status i start;
        is_there = e;
        identity = sample_row-identity i start;
        counts = sample_row-counts i start;
        sampled = sample_row-sampled_at i start;
        origin = inl (other, anew i);
      }

  row_for-Follows :
      (i : TrafficInput) (before after : Option TrafficHistory)
      → after ≡ some (sample_row now nft status i (row_for i.stats before))
      → Follows i before after
  row_for-Follows i none after e = Follows-anew i none after e tt
  row_for-Follows i (some row) after e = elim (Bool-cases (row.identity == i.stats)) [
    | inl same ↦
        let own : row.identity ≡ i.stats = ground arith in
        record {
          row = sample_row now nft status i row;
          is_there = e ∙ rw same refl;
          identity = sample_row-identity i row ∙ own;
          counts = sample_row-counts i row;
          sampled = sample_row-sampled_at i row;
          origin = inr (record { row = row; was_there = refl; same = own; next = refl });
        }
    | inr other ↦ Follows-anew i (some row) after (e ∙ rw other refl) (λ own. ground arith)
  ]

  -- After an update each input has a row of its own statistics with its own counts and the time of the
  -- update, whatever the other inputs are. If a row of the same statistics was there, it is that row
  -- with one more sample. If there was none, or one of other statistics, nothing of it is carried over:
  -- it is the first sample of a new row, there is no rate, and each kernel total counts from zero. There
  -- is no row for any other rule.
  pub update_exact :
      (inputs : List TrafficInput) (rows : List (Text × TrafficHistory))
      → DistinctIds inputs
      → All
          (λ i.
            Follows i (find_text i.id rows) (find_text i.id (update now inputs nft status rows)))
          inputs
        × ((id : Text)
            → is_live inputs id ≡ false
            → find_text id (update now inputs nft status rows) ≡ none)
  update_exact inputs rows h =
      let (found, gone) = update_rows inputs rows h in (followed inputs found, gone)
    where
      followed :
          (some_inputs : List TrafficInput)
          → All
              (λ i. find_text i.id (update now inputs nft status rows) ≡ some (sampled_for rows i))
              some_inputs
          → All
              (λ i.
                Follows i
                  (find_text i.id rows)
                  (find_text i.id (update now inputs nft status rows)))
              some_inputs
      followed [] f = tt
      followed (i ∷ rest) (f, fs) = (row_for-Follows i (find_text i.id rows) _ f, followed rest fs)
