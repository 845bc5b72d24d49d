-- ===== src/Routes/Sessions/Strangers.antt =====
-- What a client that is not let in does to the device whose id it gives.
use alpilab_ai.Base.{false, none, some, [], ◌∷◌, ◌≡◌, refl, ◌∙◌, ap}
use alpilab_ai.Base.Exec.{err}
use alpilab_ai.Base.Text.{join_colon}
use alpilab_ai.Base.Dict.{get, get-put_same, get-remove_same}
use alpilab_ai.Agent.Gateway.{Server}
use alpilab_ai.Pairing.ClientAuth.{ClientAuthError, authorize_session_client}
use alpilab_ai.Realtime.Payloads.{DevicePresence}
use alpilab_ai.Realtime.State.{SessionData}
use alpilab_ai.Realtime.Manager.{get_session, set_session, utc_now, unregister_ws}
use alpilab_ai.Realtime.Manager.Frame.{announce-SameCore}
use alpilab_ai.Realtime.Manager.Presence.{disconnect_device}
use alpilab_ai.Routes.Sessions.{Client, Process, over, error, code, session_websocket}

-- A client that is refused, whose session is there and has a device under the id that the client
-- gives, is told so and its socket is over; but the device of that id is offline after it, and has no
-- socket registered any more.
pub session_websocket_refused :
    (process : Process) (c : Client) (srv : Server) (e : ClientAuthError) (s : SessionData)
    (d : DevicePresence)
    → authorize_session_client process.settings c.client_host c.device_id c.device_type
        c.pairing_token
      ≡ err e
    → get srv.manager.sessions c.session_id ≡ some s
    → get s.devices c.device_id ≡ some d
    → let after = session_websocket process c srv in
      (after.state ≡ over)
      × (after.sent ≡ error (code e) ∷ [])
      × (get after.server.manager.ws_connections (join_colon c.session_id c.device_id) ≡ none)
      × ((s' : SessionData) × ((get after.server.manager.sessions c.session_id ≡ some s')
            × ((d' : DevicePresence) × ((get s'.devices c.device_id ≡ some d')
                  × (d'.online ≡ false)))))
unfolding session_websocket disconnect_device get_session set_session utc_now unregister_ws
session_websocket_refused process c srv e s d refusal found there =
    rw (refusal, found, there)
      (
        refl,
        refl,
        get-remove_same _ _,
        (
          _,
          (
            ap (λ ss. get ss c.session_id)
                  (announce-SameCore process.platform c.session_id _ _ _ _ _).sessions
                ∙ get-put_same srv.manager.sessions c.session_id _,
            (_, (get-put_same s.devices c.device_id _, refl)),
          ),
        ),
      )
