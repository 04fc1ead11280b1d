-- ===== src/WebSocket.antt =====
-- The shared WebSocket of the web client: web/lib/ws.ts. The fields of the object are one state, and
-- what the browser calls back is one event each, so that every interleaving is a list of events.
pub mod Step
pub mod InStep
pub mod Handlers
pub mod Opening
pub mod Events
pub mod Mounted
use thassa.Base.{ℕ, Bool, false, Text, List, [], Option, none}
use thassa.Socket.{Connection, closed}

-- The fields of `ThassaSocket`, with a handler of `subs` as a number, and the sockets that were
-- made, numbered in that order. `is_connecting` also says that a call of `connect` awaits the token.
-- `reconnect_timer` is the delay of the timer that is pending: a new one clears the one before.
pub record WebSocket : Type 0 where
  pub ws : Option ℕ
  pub has_getter : Bool
  pub subs : List (Text × List ℕ)
  pub backoff : ℕ
  pub closed_by_us : Bool
  pub is_connecting : Bool
  pub reconnect_timer : Option ℕ
  pub connections : ℕ → Connection
  pub made : ℕ

abbrev pub initial : WebSocket
initial = record {
  ws = none;
  has_getter = false;
  subs = [];
  backoff = 1000;
  closed_by_us = false;
  is_connecting = false;
  reconnect_timer = none;
  connections = λ _. record { ready = closed; sent = [] };
  made = 0;
}
