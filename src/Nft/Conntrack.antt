-- ===== src/Nft/Conntrack.antt =====
-- The tracked connections of retired rules, internal/proxy/nft_conntrack.go: which of them a rule
-- owns, how they are read, and `revokeNFTConnections`. The kernel's table is behind the interface
-- `conntrackKernelIO` of the source, here the record `ConntrackIo`.
pub mod Revoke
pub mod Tuples
use go_nftables_portbridge.Prelude.{
  ℕ, ◌+◌, ◌≤◌, ◌≡◌, Bool, true, false, ◌&&◌, ◌||◌, not, List, [], ◌∷◌, Option, none, some, any,
  ◌==◌, leb, length, ltb, if◌then◌else◌,
}
use go_nftables_portbridge.Prelude.Int.{ℤ, pos, ltb_ℤ, ◌+ℤ◌, ◌-ℤ◌}
use go_nftables_portbridge.Text.{Text, codes, text_eq, is_empty, trim_space}
use go_nftables_portbridge.Netip.{Addr, zero_addr, addr_eq, is_unspecified, is_valid, is_4, zone}
use go_nftables_portbridge.Plan.{NftRuleSpec}
use go_nftables_portbridge.Nft.Ports.{end_or}
use go_nftables_portbridge.Nft.Keys.{equal_ℤ, bool_eq, host_fits}

pub record ConntrackTuple : Type 0 where
  pub source : Addr
  pub destination : Addr
  pub source_port : ℕ
  pub destination_port : ℕ

pub record ConntrackEntry : Type 0 where
  pub family : ℕ
  pub protocol : Text
  pub original : ConntrackTuple
  pub reply : ConntrackTuple
  pub mark : ℕ
  pub zone_id : ℕ

unfoldable pub conntrack_matches_spec : ConntrackEntry → NftRuleSpec → Bool
unfolding is_unspecified addr_eq ◌+ℤ◌ ◌-ℤ◌
conntrack_matches_spec e s =
    let end = end_or s.listen_port_end s.listen_port in
    let port = pos e.original.destination_port in
    e.family == s.family
    && text_eq e.protocol s.protocol
    && e.mark == s.conntrack_mark
    && (is_unspecified s.listen_host || addr_eq e.original.destination s.listen_host)
    && not (ltb_ℤ port s.listen_port)
    && not (ltb_ℤ end port)
    && addr_eq e.reply.source s.target_host
    && equal_ℤ (pos e.reply.source_port) (s.target_port +ℤ port -ℤ s.listen_port)

-- One `meta` element of the XML that `conntrack` prints; the layers' texts are as they stand there.
pub record ConntrackXmlMeta : Type 0 where
  pub direction : Text
  pub layer3 : Text
  pub source : Text
  pub destination : Text
  pub layer4 : Text
  pub source_port : Text
  pub destination_port : Text
  pub mark : Text
  pub zone_text : Text

-- The entry that is being read, and the directions that have been.
pub record Decoding : Type 0 where
  pub entry : ConntrackEntry
  pub seen_original : Bool
  pub seen_reply : Bool
  pub seen_independent : Bool

abbrev pub empty_tuple : ConntrackTuple
empty_tuple = record {
  source = zero_addr;
  destination = zero_addr;
  source_port = 0;
  destination_port = 0;
}

abbrev pub empty_decoding : Decoding
empty_decoding = record {
  entry = record {
    family = 0;
    protocol = [];
    original = empty_tuple;
    reply = empty_tuple;
    mark = 0;
    zone_id = 0;
  };
  seen_original = false;
  seen_reply = false;
  seen_independent = false;
}

abbrev pub direction_original : Text
direction_original = codes "original"

abbrev pub direction_reply : Text
direction_reply = codes "reply"

abbrev pub direction_independent : Text
direction_independent = codes "independent"

infixl 5 ◌>>=◌
abbrev pub ◌>>=◌ {ℓ κ} : {V : Type ℓ} {W : Type κ} → Option V → (V → Option W) → Option W
none >>= next = none
some v >>= next = next v

abbrev pub when : Bool → Option (Unit {0})
when true = some tt
when false = none

abbrev pub family_named : Text → Option ℕ
family_named name =
    if text_eq name (codes "ipv4")
    then some 4
    else if text_eq name (codes "ipv6")
    then some 6
    else none

abbrev pub complete : Decoding → Option ConntrackEntry
complete d = if d.seen_original && d.seen_reply && d.seen_independent then some d.entry else none

-- What `ParseAddr` and `ParseUint` in base 10 with a number of bits return. Errors have no content.
module _ (parse_addr : Text → Option Addr) (parse_uint : ℕ → Text → Option ℕ) where
  -- An address of the family, without a zone.
  abbrev pub family_addr : ℕ → Text → Option Addr
  family_addr family s = do
    a ← parse_addr (trim_space s)
    agreed ← when (is_empty (zone a) && bool_eq (is_4 a) (family == 4))
    some a

  -- One of the two tuples, its family and its transport.
  unfoldable pub decode_tuple :
      ConntrackEntry → ConntrackXmlMeta → Option (ℕ × Text × ConntrackTuple)
  decode_tuple e m = do
    zoneless ← when (is_empty m.zone_text)
    family ← family_named m.layer3
    known ← when (text_eq m.layer4 (codes "tcp") || text_eq m.layer4 (codes "udp"))
    consistent ← when (e.family == 0 || e.family == family && text_eq e.protocol m.layer4)
    source ← family_addr family m.source
    destination ← family_addr family m.destination
    source_port ← parse_uint 16 m.source_port
    destination_port ← parse_uint 16 m.destination_port
    some (
      family,
      m.layer4,
      record {
        source = source;
        destination = destination;
        source_port = source_port;
        destination_port = destination_port;
      },
    )

  abbrev pub zone_of : Text → Option ℕ
  zone_of s = if is_empty s then some 0 else parse_uint 16 s

  unfoldable pub decode_original : Decoding → ConntrackXmlMeta → Option Decoding
  unfolding decode_tuple
  decode_original d m = do
    first ← when (not d.seen_original)
    t ← decode_tuple d.entry m
    some (record d {
      entry = record d.entry { family = t.0; protocol = t.1; original = t.2 };
      seen_original = true;
    })

  unfoldable pub decode_reply : Decoding → ConntrackXmlMeta → Option Decoding
  unfolding decode_tuple
  decode_reply d m = do
    first ← when (not d.seen_reply)
    t ← decode_tuple d.entry m
    some (record d {
      entry = record d.entry { family = t.0; protocol = t.1; reply = t.2 };
      seen_reply = true;
    })

  unfoldable pub decode_independent : Decoding → ConntrackXmlMeta → Option Decoding
  decode_independent d m = do
    first ← when (not d.seen_independent)
    mark ← parse_uint 32 m.mark
    zone_id ← zone_of m.zone_text
    some (record d {
      entry = record d.entry { mark = mark; zone_id = zone_id };
      seen_independent = true;
    })

  unfoldable pub decode_meta : Decoding → ConntrackXmlMeta → Option Decoding
  unfolding decode_original decode_reply decode_independent
  decode_meta d m =
      if text_eq m.direction direction_original
      then decode_original d m
      else if text_eq m.direction direction_reply
      then decode_reply d m
      else if text_eq m.direction direction_independent
      then decode_independent d m
      else none

  unfoldable pub decode_metas : Decoding → List ConntrackXmlMeta → Option Decoding
  unfolding decode_meta
  decode_metas d [] = some d
  decode_metas d (m ∷ metas) = decode_meta d m >>= λ d'. decode_metas d' metas

  unfoldable pub decode_conntrack_flow : List ConntrackXmlMeta → Option ConntrackEntry
  unfolding decode_metas
  decode_conntrack_flow metas = decode_metas empty_decoding metas >>= complete

abbrev pub clean_tuple : ℕ → ConntrackTuple → Bool
clean_tuple family t = host_fits family t.source && host_fits family t.destination

-- The tests of `conntrackDeleteArguments`; its arguments are the fields of the entry as texts.
unfoldable pub deletable : ConntrackEntry → Bool
deletable e =
    not (e.mark == 0)
    && (e.family == 4 || e.family == 6)
    && (text_eq e.protocol (codes "tcp") || text_eq e.protocol (codes "udp"))
    && clean_tuple e.family e.original
    && clean_tuple e.family e.reply

-- What the delete of a batch comes to: exit status 1 may mean that an entry is gone already.
pub data Deletion : Type 0 where
  deleted exited_one not_deleted : Deletion

pub record ConntrackIo : Type 1 where
  pub World : Type 0
  pub table : World → List ConntrackEntry
  pub available : World → Bool
  pub expired : World → Bool
  pub list_entries : NftRuleSpec → World → World × Option (List ConntrackEntry)
  pub delete_entries : List ConntrackEntry → World → World × Deletion

abbrev pub matching : NftRuleSpec → ConntrackEntry → Bool
matching s e = conntrack_matches_spec e s

unfoldable pub select_matching : NftRuleSpec → List ConntrackEntry → List ConntrackEntry
unfolding conntrack_matches_spec
select_matching s [] = []
select_matching s (e ∷ entries) =
    let rest = select_matching s entries in if conntrack_matches_spec e s then e ∷ rest else rest

module _ (io : ConntrackIo) where
  open io use {World, available, expired, list_entries, delete_entries}

  -- The second reading: none that matches may be left.
  abbrev pub verify : NftRuleSpec → World × Option (List ConntrackEntry) → World × Bool
  verify s (w, none) = (w, false)
  verify s (w, some remaining) = (w, not (any (matching s) remaining))

  abbrev pub after_deletion : NftRuleSpec → World × Deletion → World × Bool
  after_deletion s (w, not_deleted) = (w, false)
  after_deletion s (w, deleted) = verify s (list_entries s w)
  after_deletion s (w, exited_one) = verify s (list_entries s w)

  abbrev pub delete_selected : NftRuleSpec → World → List ConntrackEntry → World × Bool
  delete_selected s w [] = (w, true)
  delete_selected s w (e ∷ selected) = after_deletion s (delete_entries (e ∷ selected) w)

  abbrev pub on_list : NftRuleSpec → World × Option (List ConntrackEntry) → World × Bool
  on_list s (w, none) = (w, false)
  on_list s (w, some entries) = delete_selected s w (select_matching s entries)

  unfoldable pub revoke_one : NftRuleSpec → World → World × Bool
  unfolding select_matching
  revoke_one s w = if expired w then (w, false) else on_list s (list_entries s w)

  unfoldable pub revoke_each : List NftRuleSpec → World → World × Bool
  unfolding revoke_one
  revoke_each [] w = (w, true)
  revoke_each (s ∷ specs) w =
      let r = revoke_one s w in elim r.1 [ true ↦ revoke_each specs r.0 | false ↦ (r.0, false) ]

  unfoldable pub revoke_nft_connections : List NftRuleSpec → World → World × Bool
  unfolding revoke_each
  revoke_nft_connections [] w = (w, true)
  revoke_nft_connections (s ∷ specs) w =
      if available w then revoke_each (s ∷ specs) w else (w, false)
