-- ===== src/Main/Ready.antt =====
-- The replies of /readyz, internal/ingest/server.go, under the readiness function of
-- cmd/device-handler/main.go.
use device_handler.Prelude.{
  ℕ, ◌+◌, ◌*◌, ◌≤◌, ◌≡◌, ◌⊎◌, ◌↔◌, inl, inr, refl, arith, Bool, true, false, Option, none, some,
  List, ◌++◌,
}
use device_handler.Time.{Time, zero_time}
use device_handler.Text.{Text, codes}
use device_handler.Syncer
use device_handler.Syncer.{Syncer}
use device_handler.Syncer.Health.{ready_status_iff}
use device_handler.Publish.Jetstream
use device_handler.Publish.Jetstream.{Conn, Status, connected, reconnecting, closed, other}
use device_handler.Server.{handle_ready}
use device_handler.Main.{reason_of, none_of, readiness}

abbrev pub IsConnected : Option Conn → Type 0
IsConnected none = ⊥
IsConnected (some c) = c.status ≡ connected

IsConnected-iff : (nc : Option Conn) → ((Jetstream.ready_status nc).0 ≡ true) ↔ IsConnected nc
unfolding Jetstream.ready_status
IsConnected-iff none = ((λ h. cc), λ h. elim h [ ])
IsConnected-iff (some c) =
    elim c.status as (λ x. (Jetstream.is_connected x ≡ true) ↔ (x ≡ connected)) [
      | connected ↦ ((λ h. refl), λ h. refl)
      | reconnecting ↦ ((λ h. cc), λ h. cc)
      | closed ↦ ((λ h. cc), λ h. cc)
      | other name ↦ ((λ h. cc), λ h. cc)
    ]

-- The readiness function of main on two statuses.
abbrev joined : Bool × Text → Bool × Text → Bool × List Text
joined a b =
    let reasons = reason_of (codes "cache/api: ") a ++ reason_of (codes "nats: ") b in
    (none_of reasons, reasons)

-- 200 if both are ready, and 503 otherwise.
abbrev IsJoined : Bool × Text → Bool × Text → ℕ → Type 0
IsJoined a b status =
    ((status ≡ 200) ↔ ((a.0 ≡ true) × (b.0 ≡ true))) × ((status ≡ 200) ⊎ (status ≡ 503))

joined-IsJoined : (a b : Bool × Text) → IsJoined a b (handle_ready (some (joined a b))).0
unfolding handle_ready
joined-IsJoined (true, s) (true, t) = (((λ h. (refl, refl)), λ h. refl), inl refl)
joined-IsJoined (true, s) (false, t) = (((λ h. ground arith), λ h. cc), inr refl)
joined-IsJoined (false, s) (true, t) = (((λ h. ground arith), λ h. cc), inr refl)
joined-IsJoined (false, s) (false, t) = (((λ h. ground arith), λ h. cc), inr refl)

-- /readyz replies 200 exactly if a load or a poll has succeeded, the last success, if it has a
-- time, is not longer ago than twice the poll interval, and NATS is connected; otherwise it
-- replies 503.
pub handle_ready-readiness :
    {W : Type 0} (poll_interval : ℕ) (now : Time) (s : Syncer W) (nc : Option Conn)
    → (((handle_ready (some (readiness poll_interval now s nc))).0 ≡ 200) ↔ (
        (s.initial_load_done ≡ true)
        × ((s.last_successful_sync ≡ zero_time)
            ⊎ (now ≤ s.last_successful_sync + 2 * poll_interval))
        × IsConnected nc))
      × (((handle_ready (some (readiness poll_interval now s nc))).0 ≡ 200)
          ⊎ ((handle_ready (some (readiness poll_interval now s nc))).0 ≡ 503))
unfolding readiness
handle_ready-readiness poll_interval now s nc =
    let (both, range) =
      joined-IsJoined (Syncer.ready_status poll_interval now s) (Jetstream.ready_status nc) in
    let synced = ready_status_iff poll_interval now s in
    let linked = IsConnected-iff nc in
    (
      (
        (λ h. let (a, b) = both.0 h in let (done, fresh) = synced.0 a in (done, fresh, linked.0 b)),
        λ h. both.1 (synced.1 (h.0, h.1), linked.1 h.2),
      ),
      range,
    )
