-- ===== src/Tests/Socket.antt =====
-- The socket in the hands of one component, across a reconnect, with two sockets at once and after a
-- stop.
use thassa.Base.{leb, length, ◌≡◌, refl, true, ltb, Text, codes, [], ◌∷◌, some, none, List}
use thassa.Socket.{initial, ready_open, subscribe}
use thassa.Socket.Hub.{Hub, has_prefix, is_user, valid_channel, accepts, joined}
use thassa.Socket.Channels.{refcount, set, delete, channels}
use thassa.Socket.Step.{
  Event, start, mount, unmount, token, fired, opened, closed_by, raw_send, connect, connect_with,
  resubscribe, on_open, schedule, on_close, start_socket, remove_timer, stop_socket,
  add_subscription, remove_subscription, mount_effect, cleanup, opens, closes, answer, fire, step,
  run, is_pending,
}
use thassa.Socket.Holders.{holders, run-holders}
use thassa.Socket.Stopped.{run-stop_socket}

abbrev book : Text
book = codes "book:7"

-- A start, a socket that closes, and its successor.
abbrev reconnected : List Event
reconnected =
    start
    ∷ token true
    ∷ mount (some book)
    ∷ opened 0
    ∷ mount (some book)
    ∷ closed_by 0
    ∷ unmount (some book)
    ∷ fired 0
    ∷ token true
    ∷ opened 1
    ∷ []

current : (run reconnected initial).ws ≡ some 1
unfolding run step start_socket connect answer connect_with mount_effect cleanup add_subscription
    remove_subscription refcount set delete channels raw_send opens closes on_open on_close schedule
    resubscribe fire remove_timer is_pending
current = refl

is_up : ((run reconnected initial).connections 1).ready ≡ ready_open
unfolding run step start_socket connect answer connect_with mount_effect cleanup add_subscription
    remove_subscription refcount set delete channels raw_send opens closes on_open on_close schedule
    resubscribe fire remove_timer is_pending
is_up = refl

sent_again : ((run reconnected initial).connections 1).sent ≡ subscribe book ∷ []
unfolding run step start_socket connect answer connect_with mount_effect cleanup add_subscription
    remove_subscription refcount set delete channels raw_send opens closes on_open on_close schedule
    resubscribe fire remove_timer is_pending
sent_again = refl

-- Two calls of `connect` before the token is there make two sockets. When the first closes, the
-- variable of the second is lost though that socket is open, and a third is on its way.
abbrev doubled : List Event
doubled =
    start ∷ mount (some book) ∷ token true ∷ token true ∷ opened 0 ∷ opened 1 ∷ closed_by 0 ∷ []

two_sockets : (run doubled initial).made ≡ 2
unfolding run step start_socket connect answer connect_with mount_effect cleanup add_subscription
    remove_subscription refcount set delete channels raw_send opens closes on_open on_close schedule
    resubscribe fire remove_timer is_pending
two_sockets = refl

lost : (run doubled initial).ws ≡ none
unfolding run step start_socket connect answer connect_with mount_effect cleanup add_subscription
    remove_subscription refcount set delete channels raw_send opens closes on_open on_close schedule
    resubscribe fire remove_timer is_pending
lost = refl

still_up : ((run doubled initial).connections 1).ready ≡ ready_open
unfolding run step start_socket connect answer connect_with mount_effect cleanup add_subscription
    remove_subscription refcount set delete channels raw_send opens closes on_open on_close schedule
    resubscribe fire remove_timer is_pending
still_up = refl

-- A backend that takes any id that is not empty, and lets the user join every channel.
abbrev hub : Hub
hub = record { user_id = codes "0123"; is_uuid = λ t. leb 1 (length t); can_join = λ c. true }

run-holders_example :
    joined hub book ((run reconnected initial).connections 1).sent
    ≡ ltb 0 (holders book reconnected 0)
unfolding is_user has_prefix accepts valid_channel
run-holders_example = run-holders hub reconnected 1 book current is_up

run-stop_socket_example :
    (run
      (token true ∷ fired 0 ∷ mount (some book) ∷ closed_by 0 ∷ [])
      (stop_socket (run reconnected initial))).made
    ≡ (run reconnected initial).made
run-stop_socket_example =
    run-stop_socket (run reconnected initial)
      (token true ∷ fired 0 ∷ mount (some book) ∷ closed_by 0 ∷ [])
      (refl, (refl, (refl, (refl, tt))))
