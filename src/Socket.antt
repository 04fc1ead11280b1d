-- ===== src/Socket.antt =====
-- The shared WebSocket of the mobile app: mobile/lib/ws.ts. The module's variables are one state, and
-- what the platform calls back is one event each, so that every interleaving is a list of events.
pub mod Channels
pub mod Hub
pub mod Step
pub mod ChannelLaws
pub mod Synced
pub mod InStep
pub mod Opening
pub mod Counting
pub mod Events
pub mod Untouched
pub mod Kept
pub mod Holders
pub mod Backoff
pub mod Stopped
use thassa.Base.{
  ℕ, zero, suc, ◌==◌, if◌then◌else◌, Bool, true, false, Text, List, [], Option, none, some,
}

-- `readyState`.
pub data Ready : Type 0 where
  connecting : Ready
  ready_open : Ready
  closing : Ready
  closed : Ready

abbrev pub is_ready : Ready → Bool
is_ready connecting = false
is_ready ready_open = true
is_ready closing = false
is_ready closed = false

-- What is sent: `other` is a frame that is no subscription.
pub data Frame : Type 0 where
  subscribe : Text → Frame
  unsubscribe : Text → Frame
  other : Text → Frame

-- A socket, and what was sent over it, the latest first.
pub record Connection : Type 0 where
  pub ready : Ready
  pub sent : List Frame

-- A pending `setTimeout(connect, delay)`.
pub record Timer : Type 0 where
  pub id : ℕ
  pub delay : ℕ

-- The variables of the module, the sockets that were made, numbered in that order, and what is
-- pending: `waiting` calls of `connect` that await the token, and the timers.
pub record Socket : Type 0 where
  pub ws : Option ℕ
  pub is_open : Bool
  pub should_run : Bool
  pub has_getter : Bool
  pub reconnect_timer : Option ℕ
  pub backoff : ℕ
  pub subscriptions : List (Text × ℕ)
  pub connections : ℕ → Connection
  pub made : ℕ
  pub waiting : ℕ
  pub timers : List Timer
  pub timers_made : ℕ

abbrev pub initial : Socket
initial = record {
  ws = none;
  is_open = false;
  should_run = false;
  has_getter = false;
  reconnect_timer = none;
  backoff = 1000;
  subscriptions = [];
  connections = λ _. record { ready = closed; sent = [] };
  made = 0;
  waiting = 0;
  timers = [];
  timers_made = 0;
}

abbrev pub set_connection : ℕ → Connection → (ℕ → Connection) → ℕ → Connection
set_connection i c f j = if j == i then c else f j
