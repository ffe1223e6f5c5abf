-- ===== src/Client/Connection.antt =====
-- apps/desktop/src/lib/connection.ts: one authenticated line to the server, cut where it waits. A
-- socket is the generation that opened it, `signing` holds what waits for the signer, and `wire` is a
-- log of the frames put on each socket. Listeners and console output are left out.
pub mod Sockets
pub mod Lines
pub mod Over
use spotjam.Prelude.{
  ℕ, zero, suc, ℤ, pos, String, Bool, true, false, not, ◌&&◌, ◌||◌, ◌==◌, eqb, if◌then◌else◌,
  is_none, Option, none, some, List, [], ◌∷◌, ◌++◌, get_elem?,
}
use spotjam.Protocol.Value.{Value}
use spotjam.Protocol.Ops.{ErrorCode, unknown_identity}
use spotjam.Server.World.{ServerEvent}
use spotjam.Client.View.{
  SocketPhase, connecting, connected, disconnected, ConnectionStatus, backoff_ms,
}

-- `#handshake`
pub data Handshake : Type 0 where
  greeting registering done failed : Handshake

-- `AuthPayload`, and what a caller asks
pub data Payload : Type 0 where
  hello : Payload
  register : String → Payload
  asked : Value → Payload

-- A payload that waits for the signer, with the generation it was sent under.
pub record Signing : Type 0 where
  pub generation : ℕ
  pub payload : Payload

-- A frame, the socket that it went out on, and the generation it was sent under.
pub record Frame : Type 0 where
  pub socket : ℕ
  pub generation : ℕ
  pub payload : Payload

-- `Connection`; `reconnect_handle` holds the delay of the pending timer
pub record Connection : Type 0 where
  pub socket : Option ℕ
  pub reconnect_attempt : ℕ
  pub reconnect_handle : Option ℕ
  pub closed : Bool
  pub generation : ℕ
  pub status : ConnectionStatus
  pub handshake : Handshake
  pub username : String
  pub signing : List Signing
  pub wire : List Frame

abbrev is_waiting : Option ℕ → Bool
is_waiting none = false
is_waiting (some delay) = true

-- `#scheduleReconnect`
unfoldable pub schedule_reconnect : Connection → Connection
unfolding backoff_ms
schedule_reconnect c = if c.closed || is_waiting c.reconnect_handle then c else record c {
  reconnect_handle = some (backoff_ms (pos c.reconnect_attempt));
  reconnect_attempt = suc c.reconnect_attempt;
}

abbrev pub set_status : Connection → SocketPhase → Bool → Connection
set_status c phase synced = record c { status = record { socket = phase; synced = synced } }

-- `#connect`, where the socket's constructor may throw
unfoldable pub connect : Connection → Bool → Connection
unfolding schedule_reconnect
connect c opens =
    if c.closed
    then c
    else let next = set_status (record c { generation = suc c.generation }) connecting false in
      if opens then record next { socket = some next.generation } else schedule_reconnect next

abbrev pub unconnected : String → Connection
unconnected username = record {
  socket = none;
  reconnect_attempt = 0;
  reconnect_handle = none;
  closed = false;
  generation = 0;
  status = record { socket = connecting; synced = false };
  handshake = greeting;
  username = username;
  signing = [];
  wire = [];
}

-- `constructor`
unfoldable pub new_connection : String → Bool → Connection
unfolding connect
new_connection username opens = connect (unconnected username) opens

-- `#send`, up to the signer
unfoldable pub begin_send : Connection → Payload → ℕ → Connection
begin_send c payload generation =
    if eqb generation c.generation
    then record c {
      signing = c.signing ++ record { generation = generation; payload = payload } ∷ [];
    }
    else c

-- `#onHandshakeSendFailure`
unfoldable pub on_handshake_send_failure : Connection → Connection
unfolding schedule_reconnect
on_handshake_send_failure c =
    schedule_reconnect (set_status (record c { socket = none }) disconnected false)

abbrev is_auth : Payload → Bool
is_auth hello = true
is_auth (register username) = true
is_auth (asked value) = false

-- What follows a send: a greeting or a registration that did not go.
unfoldable pub not_sent : Connection → Signing → Connection
unfolding on_handshake_send_failure
not_sent c s =
    if is_auth s.payload && eqb s.generation c.generation then on_handshake_send_failure c else c

-- `socket.send`, which may throw
unfoldable pub put_on_wire : Connection → Option ℕ → Signing → Bool → Connection
unfolding not_sent
put_on_wire c none s writes = not_sent c s
put_on_wire c (some socket) s writes =
    if writes
    then record c {
      wire =
          c.wire ++ record { socket = socket; generation = s.generation; payload = s.payload } ∷ [];
    }
    else not_sent c s

-- `#send`, from the signer on
unfoldable pub end_send : Connection → Signing → Bool → Bool → Connection
unfolding put_on_wire not_sent
end_send c s signs writes =
    if signs && eqb s.generation c.generation then put_on_wire c c.socket s writes else not_sent c s

unfoldable pub remove_at : ℕ → List Signing → List Signing
remove_at i [] = []
remove_at zero (s ∷ rest) = rest
remove_at (suc i) (s ∷ rest) = s ∷ remove_at i rest

-- The signer answers for the payload at a place.
unfoldable pub signed : Connection → ℕ → Bool → Bool → Connection
unfolding end_send remove_at
signed c at signs writes = elim (get_elem? c.signing at) [
  | none ↦ c
  | some s ↦ end_send (record c { signing = remove_at at c.signing }) s signs writes
]

-- `#onOpen`
unfoldable pub on_open : Connection → ℕ → Connection
unfolding begin_send
on_open c generation =
    if eqb generation c.generation
    then begin_send (set_status (record c { handshake = greeting }) connected c.status.synced) hello
        generation
    else c

-- `#advanceHandshake` at an error: the miss that a first connection expects, or a refusal.
unfoldable pub on_error : Connection → Handshake → ErrorCode → ℕ → Connection
unfolding begin_send
on_error c greeting unknown_identity generation =
    begin_send (record c { handshake = registering }) (register c.username) generation
on_error c registering code generation = record c { handshake = failed }
on_error c handshake code generation = c

-- `#advanceHandshake`, until the handshake is done
unfoldable pub advance_started : Connection → ServerEvent → ℕ → Connection
unfolding on_error
advance_started c (ServerEvent.registered pubkey username) generation = record c {
  handshake = done;
  reconnect_attempt = 0;
}
advance_started c (ServerEvent.error code) generation = on_error c c.handshake code generation
advance_started c event generation = c

abbrev pub is_done : Handshake → Bool
is_done done = true
is_done h = false

-- `#advanceHandshake`
unfoldable pub advance_handshake : Connection → ServerEvent → ℕ → Connection
unfolding advance_started
advance_handshake c event generation =
    if is_done c.handshake then c else advance_started c event generation

-- `#onMessage`, of a frame that parses
unfoldable pub on_message : Connection → ServerEvent → ℕ → Connection
unfolding advance_handshake
on_message c event generation =
    if eqb generation c.generation then advance_handshake c event generation else c

-- `#onClose`
unfoldable pub on_close : Connection → ℕ → Connection
unfolding schedule_reconnect
on_close c generation =
    if eqb generation c.generation
    then schedule_reconnect (set_status (record c { socket = none }) disconnected false)
    else c

-- The pending timer goes off.
unfoldable pub timer_fires : Connection → Bool → Connection
unfolding connect
timer_fires c opens =
    if is_waiting c.reconnect_handle
    then connect (record c { reconnect_handle = none }) opens
    else c

-- `send`
unfoldable pub send : Connection → Value → Connection
unfolding begin_send
send c value = if is_done c.handshake then begin_send c (asked value) c.generation else c

-- `destroy`
unfoldable pub destroy : Connection → Connection
destroy c = record c {
  closed = true;
  generation = suc c.generation;
  reconnect_handle = none;
  socket = none;
}

-- What happens to a connection: its sockets, its signer, its timer and its callers.
pub data Event : Type 0 where
  opened closed : ℕ → Event
  message : ServerEvent → ℕ → Event
  signer : ℕ → Bool → Bool → Event
  timer : Bool → Event
  sent : Value → Event
  destroyed : Event

unfoldable pub step : Connection → Event → Connection
unfolding on_open on_close on_message signed timer_fires send destroy
step c (opened generation) = on_open c generation
step c (closed generation) = on_close c generation
step c (message event generation) = on_message c event generation
step c (signer at signs writes) = signed c at signs writes
step c (timer opens) = timer_fires c opens
step c (sent value) = send c value
step c destroyed = destroy c

unfoldable pub run : Connection → List Event → Connection
unfolding step
run c [] = c
run c (e ∷ es) = run (step c e) es
