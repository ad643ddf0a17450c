-- ===== src/Publish/Jetstream/Connect.antt =====
-- internal/publish/jetstream_publisher.go: NewJetStreamPublisher. The NATS client is the record
-- `Dialer`; the handlers among the options only write log lines and are left out.
use device_handler.Prelude.{
  ℕ, suc, ◌-◌, ◌≡◌, refl, ◌∙◌, arith, Bool, true, List, [], ◌∷◌, Result, ok, err,
}
use device_handler.Time.{Duration, ℤ, pos, negsuc}
use device_handler.Text.{Text}
use device_handler.Publish.{PublishConfig}

-- The options of nats.Connect that are set.
pub data ConnectOption : Type 0 where
  name : Text → ConnectOption
  retry_on_failed_connect : Bool → ConnectOption
  max_reconnects : ℤ → ConnectOption
  reconnect_wait : Duration → ConnectOption

-- `C` is the type of connections, `J` that of JetStream contexts.
pub record Dialer (W X C J : Type 0) : Type 0 where
  pub connect : Text → List ConnectOption → W → Result X C × W
  pub jet_stream : C → W → Result X J × W
  pub close : C → W → W

pub record JetStreamPublisher (C J : Type 0) : Type 0 where
  pub cfg : PublishConfig
  pub nc : C
  pub js : J

pub data ConnectError (X : Type 0) : Type 0 where
  connect_nats create_jetstream_context : X → ConnectError X

abbrev pub options : Text → List ConnectOption
options service_name =
    name service_name
    ∷ retry_on_failed_connect true
    ∷ max_reconnects (negsuc 0)
    ∷ reconnect_wait (pos 2000000000)
    ∷ []

module _ {W X C J : Type 0} (dialer : Dialer W X C J) (cfg : PublishConfig) where
  abbrev pub with_context :
      C → Result X J × W → Result (ConnectError X) (JetStreamPublisher C J) × W
  with_context nc (ok js, w) = (ok (record { cfg = cfg; nc = nc; js = js }), w)
  with_context nc (err x, w) = (err (create_jetstream_context x), dialer.close nc w)

  abbrev pub dialled : Result X C × W → Result (ConnectError X) (JetStreamPublisher C J) × W
  dialled (ok nc, w) = with_context nc (dialer.jet_stream nc w)
  dialled (err x, w) = (err (connect_nats x), w)

  unfoldable pub new_jetstream_publisher :
      Text → W → Result (ConnectError X) (JetStreamPublisher C J) × W
  new_jetstream_publisher service_name w =
      dialled (dialer.connect cfg.nats_url (options service_name) w)

  -- The connections that are open: connecting opens one, closing closes it.
  pub record Counts (conns : W → ℕ) : Type 0 where
    pub connected :
        (url : Text) (os : List ConnectOption) (w w' : W) (nc : C)
        → dialer.connect url os w ≡ (ok nc, w')
        → conns w' ≡ suc (conns w)
    pub refused :
        (url : Text) (os : List ConnectOption) (w w' : W) (x : X)
        → dialer.connect url os w ≡ (err x, w')
        → conns w' ≡ conns w
    pub context : (nc : C) (w : W) → conns (dialer.jet_stream nc w).1 ≡ conns w
    pub closed : (nc : C) (w : W) → conns (dialer.close nc w) ≡ conns w - 1

  abbrev Opens : (W → ℕ) → ℕ → Result (ConnectError X) (JetStreamPublisher C J) × W → Type 0
  Opens conns n (ok p, w) = conns w ≡ suc n
  Opens conns n (err x, w) = conns w ≡ n

  with_context-Opens :
      (conns : W → ℕ) (n : ℕ) (nc : C) (r : Result X J × W)
      → Counts conns
      → conns r.1 ≡ suc n
      → Opens conns n (with_context nc r)
  with_context-Opens conns n nc (ok js, w) c h = h
  with_context-Opens conns n nc (err x, w) c h = omega (arith, c.closed nc w, h)

  dialled-Opens :
      (conns : W → ℕ) (service_name : Text) (w : W) (r : Result X C × W)
      → Counts conns
      → dialer.connect cfg.nats_url (options service_name) w ≡ r
      → Opens conns (conns w) (dialled r)
  dialled-Opens conns service_name w (ok nc, w') c e =
      with_context-Opens conns (conns w) nc (dialer.jet_stream nc w') c
        (c.context nc w' ∙ c.connected cfg.nats_url (options service_name) w w' nc e)
  dialled-Opens conns service_name w (err x, w') c e =
      c.refused cfg.nats_url (options service_name) w w' x e

  -- A publisher has one connection, and a failure leaves none open.
  pub new_jetstream_publisher-Opens :
      (conns : W → ℕ) (service_name : Text) (w : W)
      → Counts conns
      → Opens conns (conns w) (new_jetstream_publisher service_name w)
  unfolding new_jetstream_publisher
  new_jetstream_publisher-Opens conns service_name w c = dialled-Opens conns service_name w _ c refl
