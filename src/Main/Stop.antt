-- ===== src/Main/Stop.antt =====
-- The end of cmd/device-handler/main.go, once ListenAndServe has returned.
use device_handler.Prelude.{ℕ, Option, List, []}
use device_handler.Publish.Jetstream.{Conn, Call, close}

-- The error of ListenAndServe: http.ErrServerClosed, after Shutdown, or another one.
pub data ServeError (X : Type 0) : Type 0 where
  server_closed : ServeError X
  serve_failed : X → ServeError X

pub data Exit : Type 0 where
  returned : Exit
  exited : (code : ℕ) → Exit

-- The exit, and what is called on the NATS connection: the deferred Close, which os.Exit skips.
unfoldable stop : {X : Type 0} → Option Conn → ServeError X → Exit × List Call
unfolding close
stop nc server_closed = (returned, close nc)
stop nc (serve_failed x) = (exited 1, [])
