-- ===== src/Lib.antt =====
-- The client logic of THASSA, a social network whose posts carry prediction markets. Orders are
-- signed by a client and settled by the market contract; the clients are mobile/ (Expo) and web/
-- (Next.js), in TypeScript. The backend passes orders on and serves the rest over HTTP and a WebSocket.
--
-- Parts, and the files that model them:
--
-- * Pricing, for mobile/lib/signing.ts and web/lib/signing.ts. `Pricing` has what both clients compute
--   in the same way (ceilDiv, takerFeeUnits, escrowUnits, sharesForSpend), `Pricing.Mobile` and
--   `Pricing.Web` what they compute in their own (maxCostUnits, dollarsToUnits), and
--   `Pricing.Exchange` the contract's side of it, from contracts/src/markets/ThassaMarkets.sol:
--   _worstCaseCost, the check of maxCost and the cost of a fill. Numbers are bigints there and
--   natural numbers here; prices are in cents, and `decimals` is the token's.
--
-- * Cache, for RotatingCache of mobile/lib/cache.ts, which holds responses and media in files with a
--   manifest. The state `Cache` is the manifest, the disk and the two stored copies of the manifest;
--   the operations are in `Cache.Evict` (removeEntry, evictToFit), `Cache.Files` (writeEntry,
--   adoptFile, putJSON, persistNow, load, clear), `Cache.Reads` (getJSON, tierForPath, stats) and
--   `Cache.Media` (cachedMediaUri). The class runs its writes in a queue, one after the other, so that
--   `Cache.Run.run` is a list of them. What the file system and the clock answer is an argument of each
--   operation, and `JSON.stringify` and `JSON.parse` are functions given to it. A score is compared as
--   an exact fraction. The eviction runs on fuel, one round for each entry and one more, which is
--   enough as each round removes an entry.
--
-- * Mention, for mobile/lib/mentions.ts and deriveMentions of web/components/MentionTextarea.tsx. Text
--   is its list of UTF-16 code units, so that offsets are those of JavaScript. `Mention.Token` has the
--   token at the caret and the insertion of a name, `Mention.Scan` the mentions of a caption, and
--   `Mention.Segment` the caption as it is rendered.
--
-- * Socket, for mobile/lib/ws.ts. The module's variables are the state `Socket`, with every socket that
--   was made and what was sent over it. `Socket.Step` has its functions and one event for each thing
--   that can happen: a component that mounts or unmounts, a token that comes, a timer that fires, a
--   socket that opens, fails or closes. `Socket.Step.run` is any order of them. `Socket.Hub` is the
--   backend's side of a connection, of backend/internal/ws/hub.go: the channels it has joined after the
--   frames of the client, with uuid.Parse and CanJoin as parameters.
--
-- * Format, for fmtUnits and timeAgo of web/lib/format.ts. `Format.Money` shows an amount, with the
--   digits of a number on as much fuel as the number itself, which has no more digits than that, and
--   `Format.Age` has the count and the unit of an age.
--
-- * Order, for the rest of both signing.ts, mobile/components/TradeSheet.tsx, web/lib/trading.ts and the
--   backend's side in backend/internal/api and backend/internal/chain. `Order.Mobile` and `Order.Web`
--   build orders and authorizations, `Order.Hex` takes a signature apart, `Order.Submit` is the
--   submission of a ticket (`submit`) and `Order.Trading` the requests of the web client. `Order.Gate`
--   decodes a request and `Order.Check` has handleCreateOrder for a signed order, with validateOrder,
--   CheckOrder and CheckAuth. hashTypedData and
--   the wallet are functions given to the model, and the database is the record `Backend`. `Json` has
--   the values that are sent, and `Flow` the effects of a screen's handler, which stay when it throws.
--
-- * Api, for mobile/lib/api.ts and web/lib/api.ts. `Api.Mobile` and `Api.Web` have their requests, as a
--   list of what `fetch` was given and of the waits between, and `Api.Errors` the error texts. The
--   attempts run on fuel, four for the four attempts. A `get` reads and writes the state of `Cache`.
--   `Api.Upload` is uploadMedia of the mobile client.
--
-- * Create, for the uploads and the post of mobile/app/(tabs)/create.tsx. The state `Composer` is
--   the list of media and the references inFlight and controllers, as functions of a token, with the
--   runs of runUpload that have not ended. `Create.Media` has what becomes of the list,
--   `Create.Uploads` the scheduler, the start and the end of a run and the handlers, one event each,
--   and `Create.Uploads.run` is any order of them. An update of the list and the effect after it are
--   one step, on the media of the last rendering. `Create.Sound` states the invariant, and
--   `Create.Progress` counts the items that a post waits for. `Create.Ids` has the ids that a post
--   carries, and `Create.Post` is `post`: it waits for the media, creates a new market, publishes
--   the post and places the bet, with what it did as a list, and with the answers in the record
--   `World`.
--
-- * Social, for mobile/components/FollowButton.tsx, web/components/FollowButton.tsx and the likes and
--   reactions of both PostCard.tsx. A press and the answer to its request are events.
--
-- * Chat, for mobile/app/conversation/[id].tsx and web/app/(app)/messages/[id]/page.tsx. `Chat.Mobile`
--   has the state of the screen, the handler of its channel, the pages and `send` in its two halves,
--   before the request and after it, with what comes in between as events; `Chat.Web` has the messages
--   that are shown, from the pages and from the channel. Times are numbers, in the order of their
--   texts, and the sort is the stable one that JavaScript has.
--
-- * Session, for mobile/lib/session.tsx: the profile, its status and the counts of the badges. A render
--   follows each event, and the reference to the profile with it; the effects of a change of the
--   sign-in are an event of their own.
--
-- * Card, for the ticket of mobile/components/MarketCard.tsx, with each submission as a count and its
--   progress as events, and for the price that it and web/components/MarketCard.tsx read from what is
--   typed. `Order` has what a submission signs and sends.
--
-- * Publish, for web/app/(app)/create/page.tsx: the uploads, what a post needs, its mentions
--   and the wait for a new market, on fuel of fifteen rounds: enough, as each takes a second and a
--   half and the wait ends after twenty seconds.
--
-- * Warp, for mobile/lib/warpStore.ts and web/lib/warp.ts: the user an administrator acts as, which a
--   client keeps over a restart. The JSON codec is a parameter.
--
-- * WebSocket, for web/lib/ws.ts, in the manner of Socket, with a set of handlers for each channel. It
--   is always in a browser, and there is one timer at most, as a new one clears the one before.
--
-- * Notify, for mobile/lib/push.ts, mobile/components/Toasts.tsx and the rows of
--   mobile/app/notifications.tsx. `Notify.Mobile` has where each leads, and `Notify.Toasts` the toasts
--   on the screen with their timers as events.
--
-- `Base` has what the parts share, and `Tests` runs the model at fixed inputs and the theorems at
-- inputs that meet their hypotheses.
--
-- Not modelled: rendering, the progress of the mobile client's uploads, the typing timers of
-- conversations, and all of node/, rust_node/, website/ and frontend/, and of backend/ but what an
-- order, a connection of the socket and the data of a push meet. Hashes and signatures are parameters. The mobile client has
-- floating-point numbers where an amount is typed in: dollarsToUnits is taken on whole cents.
-- Usernames are ASCII, where lower case is that of the letters A to Z.
pub mod Base
pub mod Pricing
pub mod Cache
pub mod Mention
pub mod Socket
pub mod Format
pub mod Api
pub mod Json
pub mod Flow
pub mod Order
pub mod Create
pub mod Notify
pub mod Publish
pub mod Session
pub mod Card
pub mod Social
pub mod WebSocket
pub mod Chat
pub mod Warp
mod Tests
