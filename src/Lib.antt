-- ===== src/Lib.antt =====
-- spotjam: rooms in which people take turns to play tracks, each on their own Spotify client.
--
-- The server (apps/server) keeps each room as an immutable value. A client sends an op in a signed
-- envelope; the server refuses a replayed nonce, looks up who the key is, settles the room to the
-- present instant, applies the op, and sends each member a snapshot. Nobody reports that a track
-- ended: the server and the clients each work it out from the pointer, with the functions that
-- packages/protocol holds for both. On the desktop, a driver (apps/desktop/src/lib/playback) reads
-- the Spotify client, compares it with what the room wants, and sends commands, unless a person has
-- taken the player. A room client keeps the last snapshot and its own queue, over a connection that
-- greets the server, registers a new key, and opens the next socket when one is lost.
--
-- The files, and the code that they model:
--   Prelude           Booleans, lists, insertion-ordered maps and integers that the others share.
--   Protocol          packages/protocol/src. Types: events.ts and the data of ops.ts; Value: a JSON
--                     payload; Ops: the types of ops and queries and `isOp`, `isQuery`; Tracks:
--                     tracks.ts (`appendUniqueTracks`, `moveMany`); Pointer: pointer.ts
--                     (`positionAt`, `endsAt`, `settleOnce`); Envelope: envelope.ts (`open`) and
--                     where `canonicalize` of canonical.ts throws.
--   Server.RoomState  apps/server/src/room-state.ts. Core: the state and what the source calls
--                     internals; Ops: the operations, each under its name there; View: the snapshot
--                     (`buildSessionQueue`, `projectSnapshot`). Membership, Turns, Playback, Settle,
--                     Queues, Sound, Rotation, Prediction and Position hold what is proved of it.
--   Server.HandleOp   apps/server/src/handle-op.ts: `isQueueItem` and its kin, `applyOp`, `handleOp`.
--   Server.ReplayGuard    apps/server/src/replay-guard.ts.
--   Server.IdentityStore  apps/server/src/identity-store.ts.
--   Server.Rooms, Server.Connections  rooms.ts and room-summary.ts; connections.ts.
--   Server.World      What a session holds (session.ts), the timers of room-clock.ts (`arm`, `fire`),
--                     and `publish`; Laws and Timers are about telling of a change.
--   Server.Session    session.ts: `applyOp`, `joinRoom`, `leaveRoom`; Frames: `receive` and `close`.
--                     Rooms, Laws and Authority are about what frames do to the live rooms.
--   Server.Heartbeat  apps/server/src/heartbeat.ts.
--   Playback          apps/desktop/src/lib/playback: the pure modules that the driver is made of,
--                     each in the module of its name, with Agreement, Pending, Prune, Verdict and
--                     Stuck.Laws for what is proved of them.
--   Playback.Driver   driver.ts: the loop, cut where it awaits. Steps: what can happen to it, and runs
--                     of such events. Apart, Flights, Detached and Late are about these runs.
--   Client.ClockOffset    packages/room/src/lib/clock-offset.ts.
--   Client.View       packages/room/src/lib/room-client.ts: the view, `reduce`, the getters and
--                     `backoffMs`. Members and Peers: a client's view against the room that
--                     the server holds.
--   Client.Ops        room-client.ts: `ops` and `toQueueItems`. Wire and Answer: the payload of each op
--                     against what a room and a session of the server read of it.
--   Client.QueueStore packages/room/src/lib/queue-store.ts. Kept: what comes back out of the store.
--   Client.Playlists  packages/room/src/lib/playlists.ts; Rows and Edits are about the tracks of each
--                     playlist under any edits. Client.PlaylistsStore: playlists-store.ts.
--   Client.Shuffle    packages/room/src/lib/shuffle.ts.
--   Client.Selection, Client.Enqueue  selection.ts and enqueue.ts of packages/room/src/lib.
--   Client.Room       apps/desktop/src/lib/room.ts (`RoomClient`). Heard and Restored are about its
--                     view and about what it hands back to a server that restarted.
--   Client.Connection apps/desktop/src/lib/connection.ts, cut where it waits for the signer. Sockets and
--                     Lines are about its sockets and what goes out on them, Over about its end.
-- The modules named Tests run the definitions on concrete rooms, queues and readings.
--
-- How the code is rendered. A method that replaces the state becomes a function from the state to the
-- next. A Map is a list of pairs in the order of insertion. `null` and `undefined` are `none`. A
-- number is an integer of arbitrary size: instants, positions and lengths are whole milliseconds,
-- and fractions are not represented. A validator returns the value that it vouches for. The random
-- source of `shuffle` and of `shuffled` is any function of the draw and its bound. A timer may be due
-- at any instant; that Node clamps a delay of over 2^31-1 milliseconds is not represented. A frame of
-- a socket that is not open is passed over.
--
-- Fuel. The loop of `settle` runs on as much fuel as there are tracks in all queues, and two more:
-- each round takes a track from a queue or clears the pointer, after which the loop ends.
--
-- Parameters. Whether a username is valid, and the form that it is compared in, rest on the regular
-- expressions and the case folding of the JavaScript runtime, whether a key or a signature is well
-- formed on a regular expression, and whether a signature verifies on a library: all are functions
-- that the definitions take. So are the locale's order of the targets that a chip shows, the ids
-- that crypto.randomUUID gives, the trimming of a playlist's name, and the port that finds the length
-- of a track. One instant stands for the clock while a frame is handled; a timer is the instant at
-- which it is due; what is sent is a log.
--
-- Interleavings. An `await` cuts a method in two: what is under way is a field of the state (the
-- flight of a driver, the payloads that wait for the signer of a connection), and a run is a list of
-- events in any order. What the outside decides, such as whether a socket opens, is part of the event.
-- Listeners, which only tell the interface of a change, and console output are left out.
--
-- Not modelled: the encoding of canonical.ts; the default name of a new playlist, the parsing of
-- links and the texts that the interface shows; the server's store on disk; sockets, files
-- and rendering; and the Rust bridge to Spotify.
pub mod Prelude
pub mod Protocol
pub mod Server
pub mod Playback
pub mod Client
