-- ===== src/Socket/Step.antt =====
-- The functions of the module and the handlers that `connect` sets on a socket.
use thassa.Base.{
  ℕ, zero, suc, ◌+◌, ◌-◌, ◌*◌, min, ◌==◌, leb, ◌&&◌, if◌then◌else◌, Bool, true, false, Text, List,
  [], ◌∷◌, Option, none, some,
}
use thassa.Socket.{
  Ready, connecting, ready_open, closing, closed, is_ready, Frame, subscribe, unsubscribe, other,
  Timer, Socket, set_connection,
}
use thassa.Socket.Channels.{refcount, set, delete, channels}

abbrev pub set_ready : ℕ → Ready → Socket → Socket
set_ready i r s = record s {
  connections = set_connection i (record (s.connections i) { ready = r }) s.connections;
}

unfoldable pub raw_send : Frame → Socket → Socket
raw_send m s = elim s.ws [
  | none ↦ s
  | some i ↦
      let c = s.connections i in
      if is_ready c.ready
      then record s {
        connections = set_connection i (record c { sent = m ∷ c.sent }) s.connections;
      }
      else s
]

-- Up to the `await`: the rest is `connect_with`. Without a token getter the token is null.
unfoldable pub connect : Socket → Socket
connect s = elim s.ws [
  | some i ↦ s
  | none ↦ if s.should_run && s.has_getter then record s { waiting = suc s.waiting } else s
]

-- The token has come, or there is none.
unfoldable pub connect_with : Bool → Socket → Socket
connect_with has_token s =
    if s.should_run && has_token
    then record s {
      ws = some s.made;
      connections = set_connection s.made (record { ready = connecting; sent = [] }) s.connections;
      made = suc s.made;
    }
    else s

unfoldable pub resubscribe : List Text → Socket → Socket
resubscribe [] s = s
resubscribe (c ∷ cs) s = resubscribe cs (raw_send (subscribe c) s)

unfoldable pub on_open : Socket → Socket
on_open s =
    let t = record s { is_open = true; backoff = 1000 } in resubscribe (channels t.subscriptions) t

unfoldable pub schedule : Socket → Socket
schedule s = record s {
  reconnect_timer = some s.timers_made;
  timers = record { id = s.timers_made; delay = s.backoff } ∷ s.timers;
  timers_made = suc s.timers_made;
  backoff = min (s.backoff * 2) 15000;
}

unfoldable pub on_close : Socket → Socket
on_close s =
    let t = record s { is_open = false; ws = none } in if t.should_run then schedule t else t

unfoldable pub start_socket : Socket → Socket
start_socket s = connect (record s { has_getter = true; should_run = true })

-- `clearTimeout` on a timer that has fired changes nothing.
unfoldable pub remove_timer : ℕ → List Timer → List Timer
remove_timer i [] = []
remove_timer i (t ∷ ts) = let rest = remove_timer i ts in if t.id == i then rest else t ∷ rest

unfoldable pub clear_timer : Option ℕ → List Timer → List Timer
clear_timer none ts = ts
clear_timer (some i) ts = remove_timer i ts

-- `close()` on a socket that is closed already changes nothing.
abbrev pub close_ready : Ready → Ready
close_ready closed = closed
close_ready connecting = closing
close_ready ready_open = closing
close_ready closing = closing

unfoldable pub close : ℕ → Socket → Socket
close i s = set_ready i (close_ready (s.connections i).ready) s

unfoldable pub close_current : Socket → Socket
close_current s = elim s.ws [ none ↦ s | some i ↦ close i s ]

unfoldable pub stop_socket : Socket → Socket
stop_socket s =
    let t =
      close_current
        (record s { should_run = false; timers = clear_timer s.reconnect_timer s.timers }) in
    record t { ws = none; is_open = false; subscriptions = [] }

unfoldable pub add_subscription : Text → Socket → Socket
add_subscription channel s =
    let n = refcount channel s.subscriptions in
    let t = record s { subscriptions = set channel (n + 1) s.subscriptions } in
    if n == 0 && t.is_open then raw_send (subscribe channel) t else t

unfoldable pub remove_subscription : Text → Socket → Socket
remove_subscription channel s =
    let n = refcount channel s.subscriptions in
    let t = record s { subscriptions = delete channel s.subscriptions } in
    if leb n 1
    then (if t.is_open then raw_send (unsubscribe channel) t else t)
    else record s { subscriptions = set channel (n - 1) s.subscriptions }

-- `mount` and `unmount` are `useSocket`'s effect and its cleanup, on a channel or on none. `opened`,
-- `errored` and `closed_by` are a socket's events, by its number; `token` is the answer to a pending
-- `connect`, and `fired` a timer, by its id.
pub data Event : Type 0 where
  start : Event
  stop : Event
  mount : Option Text → Event
  unmount : Option Text → Event
  send : Text → Event
  token : Bool → Event
  fired : ℕ → Event
  opened : ℕ → Event
  errored : ℕ → Event
  closed_by : ℕ → Event

unfoldable pub mount_effect : Option Text → Socket → Socket
mount_effect none s = connect s
mount_effect (some channel) s = connect (add_subscription channel s)

unfoldable pub cleanup : Option Text → Socket → Socket
cleanup none s = s
cleanup (some channel) s = remove_subscription channel s

-- A socket opens when it connects, and closes unless it is closed; any other order does not occur.
unfoldable pub opens : ℕ → Ready → Socket → Socket
opens i connecting s = on_open (set_ready i ready_open s)
opens i ready_open s = s
opens i closing s = s
opens i closed s = s

unfoldable pub closes : ℕ → Ready → Socket → Socket
closes i connecting s = on_close (set_ready i closed s)
closes i ready_open s = on_close (set_ready i closed s)
closes i closing s = on_close (set_ready i closed s)
closes i closed s = s

unfoldable pub answer : ℕ → Bool → Socket → Socket
answer zero has_token s = s
answer (suc n) has_token s = connect_with has_token (record s { waiting = n })

unfoldable pub is_pending : ℕ → List Timer → Bool
is_pending i [] = false
is_pending i (t ∷ ts) = if t.id == i then true else is_pending i ts

unfoldable pub fire : ℕ → Socket → Socket
fire i s =
    let t = connect (record s { timers = remove_timer i s.timers }) in
    if is_pending i s.timers then t else s

unfoldable pub step : Event → Socket → Socket
step start s = start_socket s
step stop s = stop_socket s
step (mount c) s = mount_effect c s
step (unmount c) s = cleanup c s
step (send d) s = raw_send (other d) s
step (token h) s = answer s.waiting h s
step (fired i) s = fire i s
step (opened i) s = opens i (s.connections i).ready s
step (errored i) s = close i s
step (closed_by i) s = closes i (s.connections i).ready s

unfoldable pub run : List Event → Socket → Socket
run [] s = s
run (e ∷ es) s = run es (step e s)
