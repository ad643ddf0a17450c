-- ===== src/Ingest/Summary.antt =====
-- internal/ingest/service.go: the filters and the summaries of its log lines.
use device_handler.Prelude.{◌≡◌, refl, List, ◌++◌, map, length}
use device_handler.Time.{pos}
use device_handler.Text.{Text, Unicode, codes, equal, trim_space}
use device_handler.Comet.{format_int}
use device_handler.Cache.{
  DeviceCache, DeviceRecord, select, matches_owner, snapshot, find_by_serial,
  find_by_manufacturer_and_serial,
}

module _ ⦃u : Unicode⦄ where
  unfoldable filter_by_serial : List DeviceRecord → Text → List DeviceRecord
  unfolding select
  filter_by_serial records serial =
      select (λ r. equal (trim_space r.serial) (trim_space serial)) records

  unfoldable filter_by_manufacturer_and_serial : List DeviceRecord → Text → Text → List DeviceRecord
  unfolding select matches_owner
  filter_by_manufacturer_and_serial records manufacturer serial =
      select (matches_owner manufacturer serial) records

  -- The log line of the cache's matches is that of the filter on a snapshot of the cache.
  filter_by_serial-snapshot :
      (c : DeviceCache) (serial : Text)
      → filter_by_serial (snapshot c) serial ≡ find_by_serial c serial
  unfolding filter_by_serial find_by_serial snapshot
  filter_by_serial-snapshot c serial = refl

  filter_by_manufacturer_and_serial-snapshot :
      (c : DeviceCache) (manufacturer serial : Text)
      → filter_by_manufacturer_and_serial (snapshot c) manufacturer serial
        ≡ find_by_manufacturer_and_serial c manufacturer serial
  unfolding filter_by_manufacturer_and_serial find_by_manufacturer_and_serial snapshot
  filter_by_manufacturer_and_serial-snapshot c manufacturer serial = refl

abbrev summary : DeviceRecord → Text
summary r =
    codes "serial="
    ++ (r.serial
        ++ (codes " manufacturer="
            ++ (r.manufacturer
                ++ (codes " model="
                    ++ (r.model
                        ++ (codes " deployment_id="
                            ++ (format_int (pos r.deployment_id)
                                ++ (codes " device_id="
                                    ++ (format_int (pos r.device_id)
                                        ++ (codes " channels="
                                            ++ format_int
                                                (pos (length r.channel_mappings))))))))))))

unfoldable pub summarize_device_records : List DeviceRecord → List Text
unfolding format_int
summarize_device_records = map summary
