-- ===== src/Tests/Records.antt =====
-- Examples for the cache, the store of updates, the registry and BuildTelemetry.
use device_handler.Prelude.{List, ◌≡◌, ◌≢◌, ◌↔◌, ◌^◌, refl, false, [], ◌∷◌, ok, err, arith}
use device_handler.Time.{pos}
use device_handler.Text.{Text, codes, equal, trim_space, to_lower}
use device_handler.Text.Normal.{equal_iff}
use device_handler.Cache.{
  same_tag, ChannelMapping, DeviceRecord, DeviceCache, new_device_cache, stamp, key, record_key,
  upsert_many, lookup, upsert_channel_mapping, resolve_channel_id_by_tag,
}
use device_handler.Cache.Key.{key_iff, lookup-normal}
use device_handler.Cache.Cells.{Write, upserted, mapped, writes, puts, lookup-writes}
use device_handler.Cache.Slices.{Heap, Slice, upsert_slice}
use device_handler.Cache.Slices.Aliases.{IsUpserted, upsert_slice-IsUpserted}
use device_handler.Cache.Wire.{DeviceUpdate}
use device_handler.Device.{build_telemetry}
use device_handler.Device.Build.{
  IsSampleOf, build_telemetry-IsSampleOf, build_telemetry-first_error,
}
use device_handler.Telemetry.{DeploymentSamples}
use device_handler.Tests.{temperature, ascii, thermometer, measured, humidity, upload}

key_iff_example :
    (key (codes " Comet") (codes "T1") (codes "A1")
      ≡ key (codes "comet") (codes "t1 ") (codes "A1 "))
    ↔ ((to_lower (trim_space (codes " Comet")) ≡ to_lower (trim_space (codes "comet")))
        × (to_lower (trim_space (codes "T1")) ≡ to_lower (trim_space (codes "t1 ")))
        × (trim_space (codes "A1") ≡ trim_space (codes "A1 ")))
unfolding device_handler.Cache.Key.has_bar to_lower trim_space device_handler.Text.trim_right
    device_handler.Text.trim_left device_handler.Text.is_space device_handler.Text.rune_lower
key_iff_example =
    key_iff (codes " Comet") (codes "T1") (codes "A1") (codes "comet") (codes "t1 ") (codes "A1 ")
      refl refl refl refl

abbrev hygrometer : DeviceRecord
hygrometer = record thermometer { serial = codes "B2"; updated_at = 0 }

keys_differ : equal (record_key hygrometer) (record_key thermometer) ≡ false
unfolding key equal to_lower trim_space device_handler.Text.trim_right device_handler.Text.trim_left
    device_handler.Text.is_space device_handler.Text.rune_lower
keys_differ = refl

other_key : record_key hygrometer ≢ record_key thermometer
other_key e =
    ground (arith, equal_iff (record_key hygrometer) (record_key thermometer), keys_differ)

abbrev moved : DeviceUpdate
moved = record {
  device_id = 11;
  deployment_id = 22;
  serial = codes "A1";
  manufacturer = codes "Comet";
  model = codes "T1";
  type = codes "update";
  updated_at = 2 ^ 95;
  raw = [];
}

abbrev co2 : ChannelMapping
co2 = record { channel_id = 40; tag = codes "CO2" }

build_telemetry-IsSampleOf_example :
    (s : DeploymentSamples) × (build_telemetry thermometer (upload (measured ∷ [])) ≡ ok s)
    × IsSampleOf thermometer (upload (measured ∷ [])) s
unfolding resolve_channel_id_by_tag same_tag equal to_lower trim_space
    device_handler.Text.trim_right device_handler.Text.trim_left device_handler.Text.is_space
    device_handler.Text.rune_lower
build_telemetry-IsSampleOf_example =
    build_telemetry-IsSampleOf thermometer (upload (measured ∷ [])) ((31, refl), tt)

build_telemetry-first_error_example :
    build_telemetry thermometer (upload (measured ∷ humidity ∷ []))
    ≡ err (record { number = pos 2; name = codes "Humidity" })
unfolding resolve_channel_id_by_tag same_tag equal to_lower trim_space
    device_handler.Text.trim_right device_handler.Text.trim_left device_handler.Text.is_space
    device_handler.Text.rune_lower
build_telemetry-first_error_example =
    build_telemetry-first_error thermometer (upload (measured ∷ humidity ∷ [])) (measured ∷ []) []
      humidity refl ((31, refl), tt) refl

-- The device is loaded, loses a channel to a second load, and gets one back.
abbrev changes : List Write
changes =
    upserted (λ i. 0) (thermometer ∷ [])
    ∷ upserted (λ i. 7) (record thermometer { channel_mappings = [] } ∷ [])
    ∷ mapped (codes "comet") (codes "T1") (codes "A1")
        (record { channel_id = 40; tag = codes "Humidity" })
    ∷ []

lookup-writes_example :
    lookup (writes changes new_device_cache) (codes "COMET") (codes "t1") (codes "A1")
    ≡ puts
        (key (codes "COMET") (codes "t1") (codes "A1"))
        changes
        (lookup new_device_cache (codes "COMET") (codes "t1") (codes "A1"))
lookup-writes_example =
    lookup-writes changes new_device_cache (codes "COMET") (codes "t1") (codes "A1")

-- Two mappings in an array with one more slot; the second record has only the first of them.
abbrev slots : Heap
slots a = temperature ∷ (record { channel_id = 32; tag = codes "Humidity" }) ∷ temperature ∷ []

abbrev replacement : ChannelMapping
replacement = record { channel_id = 50; tag = codes "humidity " }

abbrev both : Slice
both = record { array = 0; len = 2 }

differ : same_tag (codes "humidity ") (codes "Temperature") ≡ false
unfolding same_tag equal to_lower trim_space device_handler.Text.trim_right
    device_handler.Text.trim_left device_handler.Text.is_space device_handler.Text.rune_lower
differ = refl

upsert_slice-IsUpserted_example :
    IsUpserted replacement slots both 1
      (codes "Temperature")
      (upsert_slice 9 [] replacement slots both)
upsert_slice-IsUpserted_example =
    upsert_slice-IsUpserted 9 [] replacement slots both 1 (codes "Temperature") (omega arith)
      (λ e. ground arith) (omega arith) differ
