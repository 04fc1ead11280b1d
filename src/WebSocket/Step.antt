-- ===== src/WebSocket/Step.antt =====
-- The methods of `ThassaSocket` and the handlers that `connect` sets on a socket.
use thassa.Base.{
  ℕ, suc, ◌*◌, min, ◌==◌, ◌||◌, not, if◌then◌else◌, Bool, true, false, Text, List, [], ◌∷◌, ◌++◌,
  Option, none, some, text_eq,
}
use thassa.Socket.{
  Ready, connecting, ready_open, closed, is_ready, Frame, subscribe, unsubscribe, other,
  set_connection,
}
use thassa.Socket.Channels.{has, set, delete, channels}
use thassa.Socket.Step.{close_ready}
use thassa.WebSocket.{WebSocket}

abbrev pub set_ready : ℕ → Ready → WebSocket → WebSocket
set_ready i r s = record s {
  connections = set_connection i (record (s.connections i) { ready = r }) s.connections;
}

-- `ws.send` on one socket.
abbrev pub send_over : ℕ → Frame → WebSocket → WebSocket
send_over i m s = record s {
  connections =
      set_connection i (record (s.connections i) { sent = m ∷ (s.connections i).sent })
        s.connections;
}

-- `send`, and how `subscribe` sends: only over an open socket.
unfoldable pub send_open : Frame → WebSocket → WebSocket
send_open m s = elim s.ws [
  | none ↦ s
  | some i ↦ (if is_ready (s.connections i).ready then send_over i m s else s)
]

-- Up to the `await`: the rest is `connect_with`.
unfoldable pub connect : WebSocket → WebSocket
connect s = if s.is_connecting || not s.has_getter then s else record s { is_connecting = true }

-- The token has come, or there is none; and the `finally`.
unfoldable pub connect_with : Bool → WebSocket → WebSocket
connect_with has_token s =
    if has_token
    then record s {
      ws = some s.made;
      connections = set_connection s.made (record { ready = connecting; sent = [] }) s.connections;
      made = suc s.made;
      is_connecting = false;
    }
    else record s { is_connecting = false }

unfoldable pub resubscribe : ℕ → List Text → WebSocket → WebSocket
resubscribe i [] s = s
resubscribe i (c ∷ cs) s = resubscribe i cs (send_over i (subscribe c) s)

unfoldable pub on_open : ℕ → WebSocket → WebSocket
on_open i s = resubscribe i (channels s.subs) (record s { backoff = 1000 })

unfoldable pub schedule_reconnect : WebSocket → WebSocket
schedule_reconnect s = record s { reconnect_timer = some s.backoff }

unfoldable pub on_close : WebSocket → WebSocket
on_close s = let t = record s { ws = none } in if t.closed_by_us then t else schedule_reconnect t

-- The timer's function.
unfoldable pub reconnect : WebSocket → WebSocket
reconnect s = connect (record s { backoff = min (s.backoff * 2) 15000 })

unfoldable pub start_socket : WebSocket → WebSocket
start_socket s = connect (record s { has_getter = true; closed_by_us = false })

unfoldable pub close : ℕ → WebSocket → WebSocket
close i s = set_ready i (close_ready (s.connections i).ready) s

unfoldable pub close_current : WebSocket → WebSocket
close_current s = elim s.ws [ none ↦ s | some i ↦ close i s ]

unfoldable pub stop_socket : WebSocket → WebSocket
stop_socket s = record (close_current (record s { closed_by_us = true; reconnect_timer = none })) {
  ws = none;
}

-- `subs.get(channel)`, with no handlers for a channel that is not there.
unfoldable pub handlers : Text → List (Text × List ℕ) → List ℕ
handlers channel [] = []
handlers channel ((c, hs) ∷ r) = if text_eq c channel then hs else handlers channel r

-- A set keeps the order in which its elements came.
unfoldable pub holds : ℕ → List ℕ → Bool
holds h [] = false
holds h (k ∷ ks) = k == h || holds h ks

unfoldable pub add : ℕ → List ℕ → List ℕ
unfolding holds
add h hs = if holds h hs then hs else hs ++ (h ∷ [])

unfoldable pub remove : ℕ → List ℕ → List ℕ
remove h [] = []
remove h (k ∷ ks) = let rest = remove h ks in if k == h then rest else k ∷ rest

unfoldable pub add_handler : Text → ℕ → WebSocket → WebSocket
add_handler channel h s =
    let t = record s { subs = set channel (add h (handlers channel s.subs)) s.subs } in
    if has channel s.subs then t else send_open (subscribe channel) t

-- Without the handlers that are left, `[]` for none.
unfoldable pub keep_handlers : Text → List ℕ → WebSocket → WebSocket
keep_handlers channel [] s =
    send_open (unsubscribe channel) (record s { subs = delete channel s.subs })
keep_handlers channel (h ∷ hs) s = record s { subs = set channel (h ∷ hs) s.subs }

-- What `subscribe` returns.
unfoldable pub remove_handler : Text → ℕ → WebSocket → WebSocket
unfolding keep_handlers
remove_handler channel h s =
    if has channel s.subs then keep_handlers channel (remove h (handlers channel s.subs)) s else s

-- The handlers that `onmessage` calls for a frame of the channel, in order.
unfoldable pub on_message : Text → WebSocket → List ℕ
on_message channel s = handlers channel s.subs

-- `mount` and `unmount` are the effect of `useChannel` and its cleanup, on a channel or on none.
-- `opened`, `errored` and `closed_by` are a socket's events, by its number, `token` is the answer
-- that `connect` awaits, and `fired` the timer.
pub data Event : Type 0 where
  start : Event
  stop : Event
  mount : Option Text → ℕ → Event
  unmount : Option Text → ℕ → Event
  send : Text → Event
  token : Bool → Event
  fired : Event
  opened : ℕ → Event
  errored : ℕ → Event
  closed_by : ℕ → Event

-- `if (!channel) return`: an empty name counts as none.
unfoldable pub mount_effect : Option Text → ℕ → WebSocket → WebSocket
mount_effect none h s = s
mount_effect (some []) h s = s
mount_effect (some (c ∷ t)) h s = add_handler (c ∷ t) h s

unfoldable pub cleanup : Option Text → ℕ → WebSocket → WebSocket
cleanup none h s = s
cleanup (some []) h s = s
cleanup (some (c ∷ t)) h s = remove_handler (c ∷ t) h s

-- A socket opens when it connects, and closes unless it is closed; any other order does not occur.
unfoldable pub opens : ℕ → Ready → WebSocket → WebSocket
opens i connecting s = on_open i (set_ready i ready_open s)
opens i _ s = s

unfoldable pub closes : ℕ → Ready → WebSocket → WebSocket
closes i closed s = s
closes i _ s = on_close (set_ready i closed s)

unfoldable pub answer : Bool → WebSocket → WebSocket
answer has_token s = if s.is_connecting then connect_with has_token s else s

unfoldable pub fire : Option ℕ → WebSocket → WebSocket
fire none s = s
fire (some delay) s = reconnect (record s { reconnect_timer = none })

unfoldable pub step : Event → WebSocket → WebSocket
step start s = start_socket s
step stop s = stop_socket s
step (mount c h) s = mount_effect c h s
step (unmount c h) s = cleanup c h s
step (send d) s = send_open (other d) s
step (token h) s = answer h s
step fired s = fire s.reconnect_timer s
step (opened i) s = opens i (s.connections i).ready s
step (errored i) s = close i s
step (closed_by i) s = closes i (s.connections i).ready s

abbrev pub run : List Event → WebSocket → WebSocket
run [] s = s
run (e ∷ es) s = run es (step e s)
