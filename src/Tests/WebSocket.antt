-- ===== src/Tests/WebSocket.antt =====
-- Two handlers on a channel across a reconnect, and a start that is stopped too late.
use thassa.Base.{leb, length, ◌≡◌, refl, not, true, Text, codes, List, [], ◌∷◌, some}
use thassa.Socket.{ready_open}
use thassa.Socket.Hub.{Hub, has_prefix, is_user, valid_channel, accepts, joined}
use thassa.Socket.Channels.{has, set, channels}
use thassa.WebSocket.{initial}
use thassa.WebSocket.Step.{
  Event, start, stop, mount, unmount, token, fired, opened, closed_by, send_open, connect,
  connect_with, resubscribe, on_open, schedule_reconnect, on_close, reconnect, start_socket,
  close_current, stop_socket, handlers, add, remove, add_handler, keep_handlers, remove_handler,
  on_message, mount_effect, cleanup, opens, closes, answer, fire, step, run,
}
use thassa.WebSocket.Handlers.{is_empty}
use thassa.WebSocket.Mounted.{mounted_after, run-on_message, run-mounted_after}

abbrev book : Text
book = codes "book:7"

abbrev reconnected : List Event
reconnected =
    start
    ∷ token true
    ∷ mount (some book) 1
    ∷ opened 0
    ∷ mount (some book) 2
    ∷ closed_by 0
    ∷ unmount (some book) 1
    ∷ fired
    ∷ token true
    ∷ opened 1
    ∷ []

current : (run reconnected initial).ws ≡ some 1
unfolding step start_socket connect answer connect_with mount_effect add_handler handlers add has
    set send_open opens on_open channels resubscribe closes on_close schedule_reconnect cleanup
    remove_handler remove keep_handlers fire reconnect
current = refl

is_open : ((run reconnected initial).connections 1).ready ≡ ready_open
unfolding step start_socket connect answer connect_with mount_effect add_handler handlers add has
    set send_open opens on_open channels resubscribe closes on_close schedule_reconnect cleanup
    remove_handler remove keep_handlers fire reconnect
is_open = refl

run-on_message_example :
    on_message book (run reconnected initial) ≡ mounted_after book reconnected []
run-on_message_example = run-on_message reconnected book

-- A backend that takes any id that is not empty, and lets the user join every channel.
abbrev hub : Hub
hub = record { user_id = codes "0123"; is_uuid = λ t. leb 1 (length t); can_join = λ c. true }

run-mounted_after_example :
    joined hub book ((run reconnected initial).connections 1).sent
    ≡ not (is_empty (mounted_after book reconnected []))
unfolding is_user has_prefix accepts valid_channel
run-mounted_after_example = run-mounted_after hub reconnected book 1 current is_open

-- `stop` comes while `connect` awaits the token: the socket is opened all the same.
opened_after_stop : (run (start ∷ stop ∷ token true ∷ []) initial).ws ≡ some 0
unfolding step start_socket connect answer connect_with stop_socket close_current
opened_after_stop = refl
