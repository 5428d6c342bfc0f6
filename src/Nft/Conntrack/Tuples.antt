-- ===== src/Nft/Conntrack/Tuples.antt =====
-- What `decodeConntrackFlow` of internal/proxy/nft_conntrack.go lets through can be deleted by
-- `conntrackDeleteArguments`.
use go_nftables_portbridge.Prelude.{
  ℕ, ◌≡◌, refl, Bool, true, false, ◌&&◌, ◌||◌, not, List, [], ◌∷◌, Option, none, some, arith, ◌==◌,
  if◌then◌else◌, subst,
}
use go_nftables_portbridge.Text.{Text, codes, text_eq, text_eq_sound, is_empty, trim_space}
use go_nftables_portbridge.Netip.{Addr, is_valid, is_4, zone}
use go_nftables_portbridge.Nft.Keys.{bool_eq, host_fits, protocol_fits}
use go_nftables_portbridge.Nft.Conntrack.{
  ConntrackEntry, ConntrackXmlMeta, ConntrackTuple, Decoding, empty_decoding, decode_tuple,
  decode_original, decode_reply, decode_independent, decode_meta, decode_metas, complete,
  decode_conntrack_flow, deletable, clean_tuple, family_addr, family_named, when, ◌>>=◌, zone_of,
  direction_original, direction_reply, direction_independent,
}

-- A rule for a chain of steps that may fail: what the last one establishes.
module _ {V W : Type 0} (P : W → Type 0) where
  bind_all :
      (o : Option V) (f : V → Option W)
      → ((v : V) → o ≡ some v → (w : W) → f v ≡ some w → P w)
      → (w : W) → (o >>= f) ≡ some w
      → P w
  bind_all none f h w e = cc
  bind_all (some v) f h w e = h v refl w e

some_all : {W : Type 0} (P : W → Type 0) (v : W) → P v → (w : W) → some v ≡ some w → P w
some_all P v p w e = let same : v ≡ w = cc in subst P same p

when-true : (b : Bool) {u : Unit {0}} → when b ≡ some u → b ≡ true
when-true true e = refl
when-true false e = cc

abbrev known : ℕ → Text → Bool
known family protocol = (family == 4 || family == 6) && protocol_fits protocol

named_known :
    (name : Text) (family : ℕ)
    → family_named name ≡ some family
    → (family == 4 || family == 6) ≡ true
named_known name family e = go (text_eq name (codes "ipv4")) (text_eq name (codes "ipv6")) e
  where
    go :
        (a b : Bool)
        → (if a then some 4 else if b then some 6 else none) ≡ some family
        → (family == 4 || family == 6) ≡ true
    go true b e = ground arith
    go false true e = ground arith
    go false false e = cc

-- The tuples that have been read are clean, and of the family and transport of the entry.
record IsGood (d : Decoding) : Type 0 where
  original_read :
      d.seen_original ≡ true
      → (known d.entry.family d.entry.protocol ≡ true)
        × (clean_tuple d.entry.family d.entry.original ≡ true)
  reply_read :
      d.seen_reply ≡ true
      → (known d.entry.family d.entry.protocol ≡ true)
        × (clean_tuple d.entry.family d.entry.reply ≡ true)

-- A tuple that is read is clean, and of the family and transport of the entry if that has them.
abbrev IsRead : ConntrackEntry → ℕ × Text × ConntrackTuple → Type 0
IsRead e t =
    (known t.0 t.1 ≡ true)
    × (clean_tuple t.0 t.2 ≡ true)
    × (known e.family e.protocol ≡ true → (e.family ≡ t.0) × (e.protocol ≡ t.1))

module _ (parse_addr : Text → Option Addr) (parse_uint : ℕ → Text → Option ℕ)
    (parse_valid : (s : Text) (a : Addr) → parse_addr s ≡ some a → is_valid a ≡ true) where
  family_addr-fits :
      (family : ℕ) (s : Text) (a : Addr)
      → family_addr parse_addr parse_uint family s ≡ some a
      → host_fits family a ≡ true
  family_addr-fits family s =
      bind_all (λ a. host_fits family a ≡ true) (parse_addr (trim_space s)) _
        λ b parsed.
          bind_all (λ a. host_fits family a ≡ true) (when (agrees b)) _
            λ u agreed.
              some_all (λ a. host_fits family a ≡ true) b
                (join (is_valid b) (is_empty (zone b)) (bool_eq (is_4 b) (family == 4))
                  (parse_valid (trim_space s) b parsed) (when-true (agrees b) agreed))
    where
      agrees : Addr → Bool
      agrees b = is_empty (zone b) && bool_eq (is_4 b) (family == 4)

      join : (x y z : Bool) → x ≡ true → (y && z) ≡ true → (x && y && z) ≡ true
      join x y z h g = ground arith

  decode_tuple-IsRead :
      (e : ConntrackEntry) (m : ConntrackXmlMeta) (t : ℕ × Text × ConntrackTuple)
      → decode_tuple parse_addr parse_uint e m ≡ some t
      → IsRead e t
  unfolding decode_tuple
  decode_tuple-IsRead e m = bind_all (IsRead e) (when (is_empty m.zone_text)) _ λ _ zoneless.
      bind_all (IsRead e) (family_named m.layer3) _ λ family named.
        bind_all (IsRead e) (when (protocol_fits m.layer4)) _ λ _ transport.
          bind_all (IsRead e)
            (when (e.family == 0 || e.family == family && text_eq e.protocol m.layer4)) _
            λ _ consistent.
              bind_all (IsRead e) (family_addr parse_addr parse_uint family m.source) _
                λ source from.
                  bind_all (IsRead e) (family_addr parse_addr parse_uint family m.destination) _
                    λ destination to. bind_all (IsRead e) (parse_uint 16 m.source_port) _ λ p _.
                      bind_all (IsRead e) (parse_uint 16 m.destination_port) _ λ q _.
                        some_all (IsRead e) _ (
                          both (named_known m.layer3 family named)
                              (when-true (protocol_fits m.layer4) transport),
                          both (family_addr-fits family m.source source from)
                              (family_addr-fits family m.destination destination to),
                          λ h. agree e.family family e.protocol m.layer4 h (
                              when-true
                                (e.family == 0 || e.family == family && text_eq e.protocol m.layer4)
                                consistent),
                        )
    where
      both : {a b : Bool} → a ≡ true → b ≡ true → (a && b) ≡ true
      both h g = ground arith

      agree :
          (f g : ℕ) (s t : Text)
          → known f s ≡ true
          → (f == 0 || f == g && text_eq s t) ≡ true
          → (f ≡ g) × (s ≡ t)
      agree f g s t h c = (ground arith, text_eq_sound s t (ground arith))

  decode_original-IsGood :
      (d : Decoding) (m : ConntrackXmlMeta)
      → IsGood d
      → (d' : Decoding) → decode_original parse_addr parse_uint d m ≡ some d'
      → IsGood d'
  unfolding decode_original
  decode_original-IsGood d m g = bind_all IsGood (when (not d.seen_original)) _ λ _ first.
      bind_all IsGood (decode_tuple parse_addr parse_uint d.entry m) _
        λ t read. some_all IsGood _ (put t (decode_tuple-IsRead d.entry m t read))
    where
      put :
          (t : ℕ × Text × ConntrackTuple)
          → IsRead d.entry t
          → IsGood (record d {
            entry = record d.entry { family = t.0; protocol = t.1; original = t.2 };
            seen_original = true;
          })
      put t (k, c, same) = record {
        original_read = λ _. (k, c);
        reply_read = λ h. let (f, p) = same (g.reply_read h).0 in (k, rw (← f) (g.reply_read h).1);
      }

  decode_reply-IsGood :
      (d : Decoding) (m : ConntrackXmlMeta)
      → IsGood d
      → (d' : Decoding) → decode_reply parse_addr parse_uint d m ≡ some d'
      → IsGood d'
  unfolding decode_reply
  decode_reply-IsGood d m g = bind_all IsGood (when (not d.seen_reply)) _ λ _ first.
      bind_all IsGood (decode_tuple parse_addr parse_uint d.entry m) _
        λ t read. some_all IsGood _ (put t (decode_tuple-IsRead d.entry m t read))
    where
      put :
          (t : ℕ × Text × ConntrackTuple)
          → IsRead d.entry t
          → IsGood (record d {
            entry = record d.entry { family = t.0; protocol = t.1; reply = t.2 };
            seen_reply = true;
          })
      put t (k, c, same) = record {
        original_read =
            λ h. let (f, p) = same (g.original_read h).0 in (k, rw (← f) (g.original_read h).1);
        reply_read = λ _. (k, c);
      }

  decode_independent-IsGood :
      (d : Decoding) (m : ConntrackXmlMeta)
      → IsGood d
      → (d' : Decoding) → decode_independent parse_addr parse_uint d m ≡ some d'
      → IsGood d'
  unfolding decode_independent
  decode_independent-IsGood d m g = bind_all IsGood (when (not d.seen_independent)) _ λ _ first.
      bind_all IsGood (parse_uint 32 m.mark) _ λ mark _.
        bind_all IsGood (zone_of parse_addr parse_uint m.zone_text) _ λ zone_id _.
          some_all IsGood _ (record { original_read = g.original_read; reply_read = g.reply_read })

  decode_meta-IsGood :
      (d : Decoding) (m : ConntrackXmlMeta)
      → IsGood d
      → (d' : Decoding) → decode_meta parse_addr parse_uint d m ≡ some d'
      → IsGood d'
  unfolding decode_meta
  decode_meta-IsGood d m g d' =
      go (text_eq m.direction direction_original) (text_eq m.direction direction_reply)
        (text_eq m.direction direction_independent)
    where
      go :
          (a b c : Bool)
          → (if a
              then decode_original parse_addr parse_uint d m
              else if b
              then decode_reply parse_addr parse_uint d m
              else if c
              then decode_independent parse_addr parse_uint d m
              else none)
            ≡ some d'
          → IsGood d'
      go true b c = decode_original-IsGood d m g d'
      go false true c = decode_reply-IsGood d m g d'
      go false false true = decode_independent-IsGood d m g d'
      go false false false = λ e. cc

  decode_metas-IsGood :
      (d : Decoding) (metas : List ConntrackXmlMeta)
      → IsGood d
      → (d' : Decoding) → decode_metas parse_addr parse_uint d metas ≡ some d'
      → IsGood d'
  unfolding decode_metas
  decode_metas-IsGood d [] g = some_all IsGood d g
  decode_metas-IsGood d (m ∷ metas) g =
      bind_all IsGood (decode_meta parse_addr parse_uint d m) _
        λ v e. decode_metas-IsGood v metas (decode_meta-IsGood d m g v e)

  -- Each tracked connection that is read from the kernel can be handed back to it for deletion, if
  -- it carries a mark: its family and transport are known, and its four addresses are valid, of
  -- that family and without a zone.
  pub decode_conntrack_flow-deletable :
      (metas : List ConntrackXmlMeta) (e : ConntrackEntry)
      → decode_conntrack_flow parse_addr parse_uint metas ≡ some e
      → (e.mark == 0) ≡ false
      → deletable e ≡ true
  unfolding decode_conntrack_flow deletable
  decode_conntrack_flow-deletable metas e eq marked =
      bind_all (λ x. (x.mark == 0) ≡ false → deletable x ≡ true)
        (decode_metas parse_addr parse_uint empty_decoding metas) complete
        (λ d read x done h.
          finish d (decode_metas-IsGood empty_decoding metas start d read) x done h)
        e eq marked
    where
      start : IsGood empty_decoding
      start = record { original_read = λ h. cc; reply_read = λ h. cc }

      all_of :
          (o r i : Bool) (x y : ConntrackEntry)
          → (if o && r && i then some x else none) ≡ some y
          → (o ≡ true) × (r ≡ true) × (x ≡ y)
      all_of true true true x y e = (refl, refl, cc)
      all_of true true false x y e = cc
      all_of true false i x y e = cc
      all_of false r i x y e = cc

      conj :
          (m f p o r : Bool)
          → m ≡ false
          → (f && p) ≡ true
          → o ≡ true
          → r ≡ true
          → (not m && f && p && o && r) ≡ true
      conj m f p o r a b c d = ground arith

      finish :
          (d : Decoding)
          → IsGood d
          → (x : ConntrackEntry) → complete d ≡ some x
          → (x.mark == 0) ≡ false
          → deletable x ≡ true
      finish d g x done h =
          let (o, r, same) =
            all_of d.seen_original d.seen_reply d.seen_independent d.entry x done in
          subst (λ (y : ConntrackEntry). (y.mark == 0) ≡ false → deletable y ≡ true) same
            (λ h'.
              conj (d.entry.mark == 0) (d.entry.family == 4 || d.entry.family == 6)
                (protocol_fits d.entry.protocol) _ _ h' (g.original_read o).0 (g.original_read o).1
                (g.reply_read r).1)
            h
