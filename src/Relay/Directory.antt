-- ===== src/Relay/Directory.antt =====
-- A directory that is sent as a snapshot is read again.
use tuntom.Base.{
  All, List, [], ap, append-nil, append_assoc, arith, drop, drop-drop, drop_at, drop_prefix, false,
  get_or, get_or-drop, length, length-append, refl, some, sym, take_prefix, true, ℕ, ◌%◌, ◌++◌, ◌+◌,
  ◌<◌, ◌^◌, ◌∙◌, ◌∷◌, ◌≡◌, ◌≤◌,
}
use tuntom.Wire.{store_be16, load_be16, store_be32, load_be32, store_be64, load_be64}
use tuntom.Wire.Laws.{
  load_be16-store_be16, load_be32-store_be32, length-store_be64, load_be64-store_be64,
}
use tuntom.SwitchProtocol.{max_port_id_size}
use tuntom.Relay.{
  snapshot, View, accepted, accept_view, decode, max_channels, Channel, valid_name, taken,
  read_channel, valid_channel, read_channels, read_snapshot, write_channel, write_channels,
  write_snapshot,
}
use tuntom.Relay.Records.{decode-encode_record}

-- A channel whose fields fit, with a name that the switch takes.
pub record IsChannel (c : Channel) : Type 0 where
  pub known : 0 < c.id
  pub id_fits : c.id < 2 ^ 32
  pub owned : 0 < c.owner
  pub owner_fits : c.owner < 2 ^ 64
  pub named : 0 < length c.name
  pub name_fits : length c.name ≤ max_port_id_size
  pub name_taken : valid_name c.name ≡ true

-- No channel has the identifier or the name of one before it.
abbrev pub Distinct : List Channel → List Channel → Type 0
Distinct before [] = Unit
Distinct before (c ∷ cs) = (taken before c ≡ false) × Distinct (before ++ (c ∷ [])) cs

module _ (c : Channel) (v : IsChannel c) (rest : List ℕ) where
  -- The thirteen bytes in front of the name.
  written : List ℕ
  written = write_channel c ++ rest

  written_parts :
      written ≡ store_be32 c.id ++ (store_be64 c.owner ++ (length c.name % 256 ∷ (c.name ++ rest)))
  unfolding written write_channel
  written_parts = simp append_assoc refl

  drop_id : drop 4 written ≡ store_be64 c.owner ++ (length c.name % 256 ∷ (c.name ++ rest))
  drop_id = ap (drop 4) written_parts ∙ drop_at 4 (store_be32 c.id) _ (unfold store_be32 in refl)

  drop_owner : drop 12 written ≡ length c.name % 256 ∷ (c.name ++ rest)
  drop_owner =
      sym (drop-drop 4 8 written)
      ∙ ap (drop 8) drop_id
      ∙ drop_at 8 (store_be64 c.owner) _ (length-store_be64 c.owner)

  size_byte : get_or written 12 0 ≡ length c.name
  size_byte =
      sym (get_or-drop 12 0 0 written)
      ∙ ap (λ l. get_or l 0 0) drop_owner
      ∙ omega (arith, v.name_fits)

  drop_size : drop 13 written ≡ c.name ++ rest
  drop_size = sym (drop-drop 12 1 written) ∙ ap (drop 1) drop_owner

  channel_read : read_channel written ≡ c
  unfolding read_channel
  channel_read = ground (
    arith,
    ap load_be32 written_parts ∙ load_be32-store_be32 c.id _ v.id_fits,
    ap load_be64 drop_id ∙ load_be64-store_be64 c.owner _ v.owner_fits,
    size_byte,
    drop_size,
    take_prefix c.name rest,
  )

  past_channel : drop (13 + get_or written 12 0) written ≡ rest
  past_channel =
      ap (λ n. drop (13 + n) written) size_byte
      ∙ sym (drop-drop 13 (length c.name) written)
      ∙ ap (drop (length c.name)) drop_size
      ∙ drop_prefix c.name rest

  length-written : length written ≡ 13 + length c.name + length rest
  length-written =
      ap length written_parts
      ∙ unfold store_be32 in
        omega (
          arith,
          length-append (store_be64 c.owner) (length c.name % 256 ∷ (c.name ++ rest)),
          length-store_be64 c.owner,
          length-append c.name rest,
        )

  channel_valid :
      (before : List Channel) → taken before c ≡ false → valid_channel written before ≡ true
  unfolding valid_channel
  channel_valid before new = ground (arith, v, new, channel_read, size_byte, length-written)

read_channels_lem :
    (before cs : List Channel)
    → All IsChannel cs
    → Distinct before cs
    → read_channels (length cs) (write_channels cs) before ≡ some (before ++ cs)
unfolding read_channels write_channels
read_channels_lem before [] v d = ap some (sym (append-nil before))
read_channels_lem before (c ∷ cs) (v, vs) (new, d) =
    let rest : List ℕ = write_channels cs in
    let valid : valid_channel (write_channel c ++ rest) before ≡ true =
      unfold written in channel_valid c v rest before new in
    let same : read_channel (write_channel c ++ rest) ≡ c =
      unfold written in channel_read c v rest in
    let past : drop (13 + get_or (write_channel c ++ rest) 12 0) (write_channel c ++ rest) ≡ rest =
      unfold written in past_channel c v rest in
    rw valid (
      simp (same, past)
        (read_channels_lem (before ++ (c ∷ [])) cs vs d
          ∙ ap some (append_assoc before (c ∷ []) cs)))

snapshot-accepted :
    (v : View)
    → v.kind ≡ snapshot
    → 0 < v.epoch
    → 0 < v.channel
    → v.owner ≡ 0
    → 2 ≤ length v.payload
    → accept_view v ≡ some v
unfolding accept_view accepted
snapshot-accepted v k e c o l = ground (arith, k, e, c, o, l)

-- A directory of at most 128 channels, with identifiers, owners and names that fit and are not 0, and no
-- identifier or name twice, is read from its snapshot as it was, with its epoch and revision, which fit
-- their fields and are not 0.
pub read_snapshot-write_snapshot :
    (epoch revision : ℕ) (channels : List Channel) (b : List ℕ)
    → 0 < epoch
    → epoch < 2 ^ 64
    → 0 < revision
    → revision < 2 ^ 32
    → length channels ≤ max_channels
    → All IsChannel channels
    → Distinct [] channels
    → write_snapshot epoch revision channels ≡ some b
    → (v : View) × (decode b ≡ some v)
      × (v.epoch ≡ epoch)
      × (v.channel ≡ revision)
      × (read_snapshot v ≡ some channels)
unfolding write_snapshot read_snapshot
read_snapshot-write_snapshot epoch revision channels b e e' r r' few valid distinct h =
    let payload : List ℕ = store_be16 (length channels) ++ write_channels channels in
    let v : View = record {
      kind = snapshot;
      channel = revision;
      epoch = epoch;
      owner = 0;
      payload = payload;
    } in
    let long : 2 ≤ length payload = unfold store_be16 in omega arith in
    let counted : load_be16 payload ≡ length channels =
      load_be16-store_be16 (length channels) (write_channels channels) (omega (arith, few)) in
    let behind : drop 2 payload ≡ write_channels channels = unfold store_be16 in refl in
    (
      v,
      decode-encode_record snapshot revision epoch payload b r' e' h
          ∙ snapshot-accepted v refl e r refl long,
      refl,
      refl,
      ground (arith, long, counted, few, behind, read_channels_lem [] channels valid distinct),
    )
