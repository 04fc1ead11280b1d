-- ===== src/Tests.antt =====
-- Runs of the model at fixed inputs, and the theorems at inputs that meet their hypotheses.
mod Pricing
mod Cache
mod Mention
mod Socket
mod Format
mod Order
mod Api
mod Create
mod Social
mod Chat
mod Warp
mod WebSocket
mod Notify
mod Session
mod Card
mod Publish
