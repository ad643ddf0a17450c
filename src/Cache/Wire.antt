-- ===== src/Cache/Wire.antt =====
-- internal/cache/device_cache.go, the parts behind encoding/json: the fields that the two
-- UnmarshalJSON take from a decoded object, and the store of device updates.
use device_handler.Prelude.{
  ℕ, ◌≤◌, ◌≡◌, Option, none, some, List, [], ◌∷◌, ◌++◌, arith, sym, ◌∙◌, append-nil, append_assoc,
  All, All-append,
}
use device_handler.Time.{Time, zero_time}
use device_handler.Text.{Text}
use device_handler.Cache.{DeviceRecord, ChannelMapping, latest}

pub record RawDeviceRecord : Type 0 where
  pub device_id : ℕ
  pub deployment_id : ℕ
  pub gateway_deployment_id : Option ℕ
  pub serial_number : Text
  pub manufacturer : Text
  pub model : Text
  pub channels : List ChannelMapping
  pub sync_updated_at : Option Time
  pub properties_updated_at : Option Time

-- The `if ... else if` on two optional times: the first that is there, or the field's old value.
abbrev pub first_time : Option Time → Option Time → Time → Time
first_time (some t) s old = t
first_time none (some t) old = t
first_time none none old = old

-- DeviceRecord.UnmarshalJSON on the receiver `r`.
unfoldable pub unmarshal_record : RawDeviceRecord → DeviceRecord → DeviceRecord
unmarshal_record raw r = record {
  device_id = raw.device_id;
  deployment_id = raw.deployment_id;
  gateway_deployment_id = raw.gateway_deployment_id;
  serial = raw.serial_number;
  manufacturer = raw.manufacturer;
  model = raw.model;
  channel_mappings = raw.channels;
  updated_at = first_time raw.sync_updated_at raw.properties_updated_at r.updated_at;
}

pub record DeviceUpdate : Type 0 where
  pub device_id : ℕ
  pub deployment_id : ℕ
  pub serial : Text
  pub manufacturer : Text
  pub model : Text
  pub type : Text
  pub updated_at : Time
  pub raw : List ℕ

pub record RawDeviceUpdate : Type 0 where
  pub device_id : ℕ
  pub deployment_id : ℕ
  pub serial_number : Text
  pub manufacturer : Text
  pub model : Text
  pub sync_action : Text
  pub properties_updated_at : Option Time
  pub sync_updated_at : Option Time

-- DeviceUpdate.UnmarshalJSON on the receiver `r`, with the bytes that `raw` was decoded from.
unfoldable pub unmarshal_update : RawDeviceUpdate → List ℕ → DeviceUpdate → DeviceUpdate
unmarshal_update raw bytes r = record {
  device_id = raw.device_id;
  deployment_id = raw.deployment_id;
  serial = raw.serial_number;
  manufacturer = raw.manufacturer;
  model = raw.model;
  type = raw.sync_action;
  updated_at = first_time raw.properties_updated_at raw.sync_updated_at r.updated_at;
  raw = bytes;
}

pub record DeviceUpdateStore : Type 0 where
  pub updates : List DeviceUpdate
  pub updated_at : Time

abbrev pub new_device_update_store : DeviceUpdateStore
new_device_update_store = record { updates = []; updated_at = zero_time }

-- The body of the loop of AddMany.
unfoldable pub add_update : DeviceUpdateStore → DeviceUpdate → DeviceUpdateStore
unfolding latest
add_update s x = record {
  updates = s.updates ++ (x ∷ []);
  updated_at = latest x.updated_at s.updated_at;
}

unfoldable pub add_many : List DeviceUpdate → DeviceUpdateStore → DeviceUpdateStore
unfolding add_update
add_many [] s = s
add_many (x ∷ xs) s = add_many xs (add_update s x)

-- UpdatedAt of the store is never older than any update in it, and AddMany keeps the order.
pub record IsCurrent (s : DeviceUpdateStore) : Type 0 where
  pub newest : All (λ x. x.updated_at ≤ s.updated_at) s.updates

All-mono :
    (t t' : Time) (xs : List DeviceUpdate)
    → t ≤ t'
    → All (λ x. x.updated_at ≤ t) xs
    → All (λ x. x.updated_at ≤ t') xs
All-mono t t' [] h a = tt
All-mono t t' (x ∷ xs) h a = (omega arith, All-mono t t' xs h a.1)

add_update-IsCurrent :
    (s : DeviceUpdateStore) (x : DeviceUpdate) → IsCurrent s → IsCurrent (add_update s x)
unfolding add_update
add_update-IsCurrent s x h = record {
  newest =
      All-append _ s.updates (x ∷ []) (All-mono s.updated_at _ s.updates (ground arith) h.newest)
        (ground arith, tt);
}

-- On a store whose time is not older than any update in it, AddMany appends the updates in their
-- order, and the store's time stays so.
pub add_many_lem :
    (xs : List DeviceUpdate) (s : DeviceUpdateStore)
    → IsCurrent s
    → ((add_many xs s).updates ≡ s.updates ++ xs) × IsCurrent (add_many xs s)
unfolding add_many
add_many_lem [] s h = (sym (append-nil s.updates), h)
add_many_lem (x ∷ xs) s h =
    let ih = add_many_lem xs (add_update s x) (add_update-IsCurrent s x h) in
    (ih.0 ∙ unfold add_update in append_assoc s.updates (x ∷ []) xs, ih.1)

-- DeviceUpdateStore.Snapshot
abbrev copied : DeviceUpdateStore → List DeviceUpdate
copied s = s.updates
