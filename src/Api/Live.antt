-- ===== src/Api/Live.antt =====
-- daemon/src/api.rs: `handle_ws`, one WebSocket client. What `tokio::select!` picks is a sequence of
-- events; a send that fails is part of the event that sends.
use php_periscope.Common.{
  ℕ, Option, none, some, List, [], ◌∷◌, ◌++◌, Bool, true, false, if◌then◌else◌,
}
use php_periscope.Common.Text.{Text}
use php_periscope.Link.{LinkBus, ExtMessage, UiMessage}

pub data Recv (A : Type 0) : Type 0 where
  message : A → Recv A
  lagged : ℕ → Recv A
  closed : Recv A

pub data Inbound : Type 0 where
  text : Text → Inbound
  close other ended failed : Inbound

pub data WsEvent : Type 0 where
  from_bus : Recv ExtMessage → (sends : Bool) → WsEvent
  from_ui : Recv UiMessage → (sends : Bool) → WsEvent
  from_client : Inbound → WsEvent

-- What is sent to the client.
pub data Outbound : Type 0 where
  greeting : Outbound
  missed : ℕ → Outbound
  ext : ExtMessage → Outbound
  ui : UiMessage → Outbound

pub record WsState : Type 0 where
  pub bus : LinkBus
  pub sent : List Outbound
  pub live : Bool

-- `publish_ui`
unfoldable pub publish_ui : UiMessage → LinkBus → LinkBus
publish_ui msg bus = record bus { ui_sent = bus.ui_sent ++ msg ∷ [] }

abbrev pub send : Outbound → Bool → WsState → WsState
send out sends s =
    if sends then record s { sent = s.sent ++ out ∷ [] } else record s { live = false }

-- One round of the loop; `decode` is `serde_json::from_str` on a `UiMessage`.
unfoldable pub ws_step : (Text → Option UiMessage) → WsEvent → WsState → WsState
ws_step decode (from_bus (message msg) sends) s = send (ext msg) sends s
ws_step decode (from_bus (lagged n) true) s = record s { sent = s.sent ++ missed n ∷ [] }
ws_step decode (from_bus (lagged n) false) s = s
ws_step decode (from_bus closed sends) s = record s { live = false }
ws_step decode (from_ui (message msg) sends) s = send (ui msg) sends s
ws_step decode (from_ui (lagged n) sends) s = s
ws_step decode (from_ui closed sends) s = record s { live = false }
ws_step decode (from_client (text t)) s = elim (decode t) [
  | none ↦ s
  | some msg ↦ record s { bus = publish_ui msg s.bus }
]
ws_step decode (from_client other) s = s
ws_step decode (from_client _) s = record s { live = false }

-- The loop, which ends when the client is gone.
unfoldable pub ws_loop : (Text → Option UiMessage) → List WsEvent → WsState → WsState
ws_loop decode [] s = s
ws_loop decode (e ∷ events) s =
    let next = ws_loop decode events (ws_step decode e s) in if s.live then next else s

-- `handle_ws`: the greeting may fail unnoticed.
unfoldable pub handle_ws : (Text → Option UiMessage) → Bool → List WsEvent → LinkBus → WsState
handle_ws decode greeted events bus =
    let sent = if greeted then greeting ∷ [] else [] in
    ws_loop decode events (record { bus = bus; sent = sent; live = true })
