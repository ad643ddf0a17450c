-- ===== src/Cache/Channels.antt =====
-- The mapping of tags to channels, after UpsertChannelMapping.
use device_handler.Prelude.{◌≡◌, refl, some, List, [], ◌∷◌, arith, if◌then◌else◌}
use device_handler.Text.{Text, Unicode, equal}
use device_handler.Text.Normal.{equal_iff}
use device_handler.Dict
use device_handler.Dict.{Dict, lookup-insert}
use device_handler.Cache.{
  DeviceRecord, DeviceCache, ChannelMapping, key, lookup, same_tag, normalize_channel_tag,
  put_mapping, resolve_in, upsert_channel_mapping, resolve_channel_id_by_tag,
}

module _ ⦃u : Unicode⦄ where
  resolve_in-put_mapping :
      (m : ChannelMapping) (ms : List ChannelMapping) (t : Text)
      → resolve_in (put_mapping m ms) t
        ≡ (if same_tag m.tag t then some m.channel_id else resolve_in ms t)
  unfolding resolve_in put_mapping same_tag
  resolve_in-put_mapping m [] t = refl
  resolve_in-put_mapping m (x ∷ ms) t = ground (
    arith,
    resolve_in-put_mapping m ms t,
    equal_iff (normalize_channel_tag x.tag) (normalize_channel_tag m.tag),
    equal_iff (normalize_channel_tag x.tag) (normalize_channel_tag t),
    equal_iff (normalize_channel_tag m.tag) (normalize_channel_tag t),
  )

  -- UpsertChannelMapping on a cached device: the record that it returns is the one that the cache
  -- then holds under that key; it resolves the mapping's tag, up to case and outer white space, to
  -- the mapping's channel and every other tag as before; and the entries under other keys stay.
  pub upsert_channel_mapping_lem :
      (m mo s : Text) (mapping : ChannelMapping) (c : DeviceCache) (r : DeviceRecord)
      → lookup c m mo s ≡ some r
      → (r' : DeviceRecord) × ((upsert_channel_mapping m mo s mapping c).1 ≡ some r')
        × ((t : Text)
            → resolve_channel_id_by_tag r' t ≡ (
                if same_tag mapping.tag t
                then some mapping.channel_id
                else resolve_channel_id_by_tag r t))
        × ((k : Text)
            → Dict.lookup k (upsert_channel_mapping m mo s mapping c).0.by_key
              ≡ (if equal (key m mo s) k then some r' else Dict.lookup k c.by_key))
        × (record r' { channel_mappings = r.channel_mappings } ≡ r)
  unfolding lookup upsert_channel_mapping resolve_channel_id_by_tag
  upsert_channel_mapping_lem m mo s mapping c r h = (
    record r { channel_mappings = put_mapping mapping r.channel_mappings },
    rw h,
    λ t. resolve_in-put_mapping mapping r.channel_mappings t,
    λ k. rw h (lookup-insert (key m mo s) k _ c.by_key),
    refl,
  )
