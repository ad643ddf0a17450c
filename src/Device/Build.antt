-- ===== src/Device/Build.antt =====
-- BuildTelemetry against a description of its result.
use device_handler.Prelude.{
  ℕ, ◌≡◌, refl, sym, ap, ◌∙◌, Option, none, some, List, [], ◌∷◌, ◌++◌, append_assoc, append-nil, ok,
  err, bind-eq-ok, All,
}
use device_handler.Time.{unix}
use device_handler.Text.{Unicode}
use device_handler.Cache.{DeviceRecord, resolve_channel_id_by_tag}
use device_handler.Telemetry.{DeploymentSamples, ChannelSeries}
use device_handler.Device.{
  ChannelMeasurement, ParseResult, sample_with, series_of, battery_of, signal_of, collect_series,
  build_telemetry,
}

module _ ⦃u : Unicode⦄ where
  -- One series for each measurement, in order: its channel is the one that the measurement's name
  -- resolves to, its only value the measured one.
  pub data Series (r : DeviceRecord) : List ChannelMeasurement → List ChannelSeries → Type 0 where
    nil : Series r [] []
    cons :
        {m : ChannelMeasurement} {s : ChannelSeries} {ms : List ChannelMeasurement}
        {ss : List ChannelSeries}
        → resolve_channel_id_by_tag r m.name ≡ some s.channel_id
        → s.values ≡ m.value ∷ []
        → Series r ms ss
        → Series r (m ∷ ms) (s ∷ ss)

  -- The name of the measurement resolves.
  abbrev pub Resolves : DeviceRecord → ChannelMeasurement → Type 0
  Resolves r m = (id : ℕ) × (resolve_channel_id_by_tag r m.name ≡ some id)

  collect_series-Series :
      (r : DeviceRecord) (ms : List ChannelMeasurement) (done : List ChannelSeries)
      → All (Resolves r) ms
      → (ss : List ChannelSeries) × (collect_series r ms done ≡ ok (done ++ ss)) × Series r ms ss
  unfolding collect_series
  collect_series-Series r [] done h = ([], ap ok (sym (append-nil done)), nil)
  collect_series-Series r (m ∷ ms) done ((id, e), h) =
      let s : ChannelSeries = record { channel_id = id; values = m.value ∷ [] } in
      let (ss, run, ser) = collect_series-Series r ms (done ++ (s ∷ [])) h in
      (s ∷ ss, rw e (run ∙ ap ok (append_assoc done (s ∷ []) ss)), cons e refl ser)

  -- The sample that a device record and a parse result are turned into.
  pub record IsSampleOf (r : DeviceRecord) (parsed : ParseResult) (s : DeploymentSamples)
      : Type 0 where
    pub deployment : s.deployment_id ≡ r.deployment_id
    pub device : s.device_id ≡ some r.device_id
    pub gateway : s.gateway_deployment_id ≡ r.gateway_deployment_id
    pub start : s.t0 ≡ unix parsed.occurred_at
    pub offsets : s.dt ≡ 0 ∷ []
    pub series : Series r parsed.channel_measurements s.channel_series
    pub battery : s.battery_series ≡ battery_of parsed.battery_percent
    pub signal : s.signal_series ≡ signal_of parsed.signal_strength

  -- If the name of every measurement resolves, BuildTelemetry succeeds, and its sample has the ids
  -- of the record, the time of the upload and one series for each measurement, in order.
  pub build_telemetry-IsSampleOf :
      (r : DeviceRecord) (parsed : ParseResult)
      → All (Resolves r) parsed.channel_measurements
      → (s : DeploymentSamples) × (build_telemetry r parsed ≡ ok s) × IsSampleOf r parsed s
  unfolding build_telemetry
  build_telemetry-IsSampleOf r parsed h =
      let (ss, run, ser) = collect_series-Series r parsed.channel_measurements [] h in
      (
        sample_with r parsed ss,
        rw run,
        record {
          deployment = refl;
          device = refl;
          gateway = refl;
          start = refl;
          offsets = refl;
          series = ser;
          battery = refl;
          signal = refl;
        },
      )

  collect_series-first_error :
      (r : DeviceRecord) (xs ys : List ChannelMeasurement) (m : ChannelMeasurement)
      (done : List ChannelSeries)
      → All (Resolves r) xs
      → resolve_channel_id_by_tag r m.name ≡ none
      → collect_series r (xs ++ (m ∷ ys)) done ≡ err (record { number = m.number; name = m.name })
  unfolding collect_series
  collect_series-first_error r [] ys m done h e = rw e
  collect_series-first_error r (x ∷ xs) ys m done ((id, e'), h) e =
      rw e' (collect_series-first_error r xs ys m _ h e)

  -- If the name of a measurement does not resolve, and those of all before it do, BuildTelemetry
  -- fails and names that measurement.
  pub build_telemetry-first_error :
      (r : DeviceRecord) (parsed : ParseResult) (xs ys : List ChannelMeasurement)
      (m : ChannelMeasurement)
      → parsed.channel_measurements ≡ xs ++ (m ∷ ys)
      → All (Resolves r) xs
      → resolve_channel_id_by_tag r m.name ≡ none
      → build_telemetry r parsed ≡ err (record { number = m.number; name = m.name })
  unfolding build_telemetry
  build_telemetry-first_error r parsed xs ys m p h e =
      rw p (rw (collect_series-first_error r xs ys m [] h e))

  series_of-ok :
      (o : Option ℕ) (r : DeviceRecord) (m : ChannelMeasurement) {s : ChannelSeries}
      → resolve_channel_id_by_tag r m.name ≡ o
      → series_of o m ≡ ok s
      → Resolves r m
  unfolding series_of
  series_of-ok none r m e h = cc
  series_of-ok (some id) r m e h = (id, e)

  collect_series-ok :
      (r : DeviceRecord) (ms : List ChannelMeasurement) (done : List ChannelSeries)
      {ss : List ChannelSeries}
      → collect_series r ms done ≡ ok ss
      → All (Resolves r) ms
  unfolding collect_series
  collect_series-ok r [] done h = tt
  collect_series-ok r (m ∷ ms) done h =
      let (s, e, rest) =
        bind-eq-ok (series_of (resolve_channel_id_by_tag r m.name) m)
          (λ series. collect_series r ms (done ++ (series ∷ []))) h in
      (series_of-ok _ r m refl e, collect_series-ok r ms _ rest)

  -- A sample that BuildTelemetry returns is the one described above.
  pub build_telemetry-ok :
      (r : DeviceRecord) (parsed : ParseResult) {s : DeploymentSamples}
      → build_telemetry r parsed ≡ ok s
      → IsSampleOf r parsed s
  build_telemetry-ok r parsed {s} h =
      let (ss, e, _) =
        bind-eq-ok (collect_series r parsed.channel_measurements [])
          (λ series. ok (sample_with r parsed series)) {b = s} (unfold build_telemetry in h) in
      let (s', e', h') =
        build_telemetry-IsSampleOf r parsed
          (collect_series-ok r parsed.channel_measurements [] e) in
      let same : s' ≡ s = cc (e', h) in rw same at h'
