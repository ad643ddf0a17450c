-- ===== src/Cache.antt =====
-- internal/cache/device_cache.go: the records, the cache of devices by key, the store of updates,
-- the resolution of channels by tag, and the fields that UnmarshalJSON takes from decoded JSON.

pub mod Key
pub mod Consistent
pub mod Cells
pub mod Channels
pub mod Slices
pub mod Wire
use device_handler.Prelude.{
  ℕ, suc, Bool, true, false, ◌&&◌, not, Option, none, some, List, [], ◌∷◌, ◌++◌, ◌==◌,
  if◌then◌else◌, Result, ok, err,
}
use device_handler.Time.{Time, ℤ, zero_time, is_zero, after}
use device_handler.Text.{Text, Unicode, equal, trim_space, to_lower, codes}
use device_handler.Dict
use device_handler.Dict.{Dict}

pub record ChannelMapping : Type 0 where
  pub channel_id : ℕ
  pub tag : Text

pub record DeviceRecord : Type 0 where
  pub device_id : ℕ
  pub deployment_id : ℕ
  pub gateway_deployment_id : Option ℕ
  pub serial : Text
  pub manufacturer : Text
  pub model : Text
  pub channel_mappings : List ChannelMapping
  pub updated_at : Time

pub record DeviceCache : Type 0 where
  pub by_key : Dict DeviceRecord
  pub updated_at : Time

abbrev pub new_device_cache : DeviceCache
new_device_cache = record { by_key = []; updated_at = zero_time }

-- The reading of the clock that replaces a missing time.
unfoldable pub stamp : Time → DeviceRecord → DeviceRecord
stamp now r = if is_zero r.updated_at then record r { updated_at = now } else r

unfoldable pub latest : Time → Time → Time
latest t s = if after t s then t else s

-- The loops of the two searches, with their test.
unfoldable pub select : (DeviceRecord → Bool) → List DeviceRecord → List DeviceRecord
select p [] = []
select p (r ∷ rs) = let rest = select p rs in if p r then r ∷ rest else rest

module _ ⦃u : Unicode⦄ where
  unfoldable pub key : Text → Text → Text → Text
  key manufacturer model serial =
      to_lower (trim_space manufacturer)
      ++ (b'|' ∷ (to_lower (trim_space model) ++ (b'|' ∷ trim_space serial)))

  abbrev pub record_key : DeviceRecord → Text
  record_key r = key r.manufacturer r.model r.serial

  -- The body of the loop of UpsertMany.
  unfoldable pub upsert : DeviceRecord → DeviceCache → DeviceCache
  unfolding latest
  upsert r c = record {
    by_key = Dict.insert (record_key r) r c.by_key;
    updated_at = latest r.updated_at c.updated_at;
  }

  -- `clock i` is what time.Now() gives for the record at i.
  unfoldable pub upsert_many : (ℕ → Time) → List DeviceRecord → DeviceCache → DeviceCache
  upsert_many clock [] c = c
  upsert_many clock (r ∷ rs) c = upsert_many (λ i. clock (suc i)) rs (upsert (stamp (clock 0) r) c)

  unfoldable debug_key : Text → Text → Text → Text
  unfolding key
  debug_key manufacturer model serial = key manufacturer model serial

  unfoldable pub lookup : DeviceCache → Text → Text → Text → Option DeviceRecord
  lookup c manufacturer model serial = Dict.lookup (key manufacturer model serial) c.by_key

  unfoldable pub snapshot : DeviceCache → List DeviceRecord
  snapshot c = Dict.values c.by_key

  unfoldable pub normalize_channel_tag : Text → Text
  normalize_channel_tag value = to_lower (trim_space value)

  unfoldable pub same_tag : Text → Text → Bool
  unfolding normalize_channel_tag
  same_tag s t = equal (normalize_channel_tag s) (normalize_channel_tag t)

  -- The loop of UpsertChannelMapping, with the append behind it.
  unfoldable pub put_mapping : ChannelMapping → List ChannelMapping → List ChannelMapping
  put_mapping mapping [] = mapping ∷ []
  put_mapping mapping (m ∷ ms) =
      if same_tag m.tag mapping.tag then mapping ∷ ms else m ∷ put_mapping mapping ms

  -- What UpsertChannelMapping does with the record that it found.
  unfoldable pub upsert_found :
      Text → ChannelMapping → DeviceCache → Option DeviceRecord → DeviceCache × Option DeviceRecord
  unfolding put_mapping
  upsert_found cache_key mapping c none = (c, none)
  upsert_found cache_key mapping c (some r) =
      let r' : DeviceRecord = record r {
        channel_mappings = put_mapping mapping r.channel_mappings;
      } in
      (record c { by_key = Dict.insert cache_key r' c.by_key }, some r')

  unfoldable pub upsert_channel_mapping :
      Text → Text → Text → ChannelMapping → DeviceCache → DeviceCache × Option DeviceRecord
  unfolding upsert_found
  upsert_channel_mapping manufacturer model serial mapping c =
      let cache_key = key manufacturer model serial in
      upsert_found cache_key mapping c (Dict.lookup cache_key c.by_key)

  unfoldable pub find_by_serial : DeviceCache → Text → List DeviceRecord
  unfolding select
  find_by_serial c serial =
      select (λ r. equal (trim_space r.serial) (trim_space serial)) (Dict.values c.by_key)

  unfoldable pub matches_owner : Text → Text → DeviceRecord → Bool
  matches_owner manufacturer serial r =
      equal (to_lower (trim_space r.manufacturer)) (to_lower (trim_space manufacturer))
      && equal (trim_space r.serial) (trim_space serial)

  unfoldable pub find_by_manufacturer_and_serial : DeviceCache → Text → Text → List DeviceRecord
  unfolding select matches_owner
  find_by_manufacturer_and_serial c manufacturer serial =
      select (matches_owner manufacturer serial) (Dict.values c.by_key)

  unfoldable pub resolve_in : List ChannelMapping → Text → Option ℕ
  resolve_in [] tag = none
  resolve_in (m ∷ ms) tag = if same_tag m.tag tag then some m.channel_id else resolve_in ms tag

  -- ResolveChannelIDByTag; `none` is its error.
  unfoldable pub resolve_channel_id_by_tag : DeviceRecord → Text → Option ℕ
  unfolding resolve_in
  resolve_channel_id_by_tag r tag = resolve_in r.channel_mappings tag

-- ResolveChannelID; `none` is its error, which no caller has to deal with.
abbrev resolve_channel_id : DeviceRecord → ℤ → Option ℕ
resolve_channel_id r channel_number = none
