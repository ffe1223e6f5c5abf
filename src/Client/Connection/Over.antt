-- ===== src/Client/Connection/Over.antt =====
-- apps/desktop/src/lib/connection.ts: a connection that was destroyed.
use spotjam.Prelude.{
  ℕ, suc, pos, Bool, true, false, ◌&&◌, ◌||◌, eqb, if◌then◌else◌, Option, none, some, List, [], ◌∷◌,
  get_elem?, ◌≡◌, refl,
}
use spotjam.Protocol.Ops.{unknown_identity, ErrorCode}
use spotjam.Server.World.{ServerEvent}
use spotjam.Client.View.{connected, disconnected, backoff_ms}
use spotjam.Client.Connection.{
  Connection, Frame, Signing, Payload, Handshake, greeting, registering, hello, register, asked,
  Event, opened, closed, message, signer, timer, sent, destroyed, step, run, schedule_reconnect,
  connect, begin_send, is_waiting, set_status, on_handshake_send_failure, not_sent, put_on_wire,
  end_send, signed, remove_at, on_open, on_error, advance_started, advance_handshake, is_done,
  on_message, on_close, timer_fires, send, destroy, is_auth,
}

-- Closed, with no socket, no timer, and these frames sent.
record IsOver (wire : List Frame) (c : Connection) : Type 0 where
  over : c.closed ≡ true
  bare : c.socket ≡ none
  idle : c.reconnect_handle ≡ none
  same : c.wire ≡ wire

module _ {wire : List Frame} where
  if_IsOver :
      (b : Bool) (x y : Connection)
      → IsOver wire x
      → IsOver wire y
      → IsOver wire (if b then x else y)
  if_IsOver true x y p q = p
  if_IsOver false x y p q = q

  schedule-IsOver : (c : Connection) → IsOver wire c → IsOver wire (schedule_reconnect c)
  unfolding schedule_reconnect
  schedule-IsOver c v = closed_already c.closed v.over
    where
      closed_already :
          (b : Bool)
          → b ≡ true
          → IsOver wire (
              if b || is_waiting c.reconnect_handle then c else record c {
                reconnect_handle = some (backoff_ms (pos c.reconnect_attempt));
                reconnect_attempt = suc c.reconnect_attempt;
              })
      closed_already true e = v
      closed_already false e = absurd (cc)

  lost-IsOver :
      (c : Connection)
      → IsOver wire c
      → IsOver wire
          (schedule_reconnect (set_status (record c { socket = none }) disconnected false))
  lost-IsOver c v =
      schedule-IsOver _ (record { over = v.over; bare = refl; idle = v.idle; same = v.same })

  begin-IsOver :
      (c : Connection) (p : Payload) (g : ℕ) → IsOver wire c → IsOver wire (begin_send c p g)
  unfolding begin_send
  begin-IsOver c p g v =
      if_IsOver (eqb g c.generation) _ c
        (record { over = v.over; bare = v.bare; idle = v.idle; same = v.same }) v

  not_sent-IsOver : (c : Connection) (s : Signing) → IsOver wire c → IsOver wire (not_sent c s)
  unfolding not_sent on_handshake_send_failure
  not_sent-IsOver c s v =
      if_IsOver (is_auth s.payload && eqb s.generation c.generation) _ c (lost-IsOver c v) v

  end-IsOver :
      (c : Connection) (s : Signing) (signs writes : Bool)
      → IsOver wire c
      → IsOver wire (end_send c s signs writes)
  unfolding end_send
  end-IsOver c s signs writes v =
      if_IsOver (signs && eqb s.generation c.generation) _ (not_sent c s)
        (with_socket c.socket v.bare) (not_sent-IsOver c s v)
    where
      with_socket : (o : Option ℕ) → o ≡ none → IsOver wire (put_on_wire c o s writes)
      with_socket none e = not_sent-IsOver c s v
      with_socket (some socket) e = absurd (cc)

  on_error-IsOver :
      (c : Connection) (h : Handshake) (code : ErrorCode) (g : ℕ)
      → IsOver wire c
      → IsOver wire (on_error c h code g)
  unfolding on_error
  on_error-IsOver c greeting unknown_identity g v =
      begin-IsOver (record c { handshake = registering }) (register c.username) g
        (record { over = v.over; bare = v.bare; idle = v.idle; same = v.same })
  on_error-IsOver c registering code g v = record {
    over = v.over;
    bare = v.bare;
    idle = v.idle;
    same = v.same;
  }
  on_error-IsOver c h code g v = v

  advance-IsOver :
      (c : Connection) (event : ServerEvent) (g : ℕ)
      → IsOver wire c
      → IsOver wire (advance_started c event g)
  unfolding advance_started
  advance-IsOver c (ServerEvent.registered pubkey username) g v = record {
    over = v.over;
    bare = v.bare;
    idle = v.idle;
    same = v.same;
  }
  advance-IsOver c (ServerEvent.error code) g v = on_error-IsOver c c.handshake code g v
  advance-IsOver c event g v = v

  signed-IsOver :
      (c : Connection) (at : ℕ) (signs writes : Bool)
      → IsOver wire c
      → IsOver wire (signed c at signs writes)
  unfolding signed
  signed-IsOver c at signs writes v = found (get_elem? c.signing at)
    where
      found :
          (o : Option Signing)
          → IsOver wire (elim o [
            | none ↦ c
            | some s ↦ end_send (record c { signing = remove_at at c.signing }) s signs writes
          ])
      found none = v
      found (some s) =
          end-IsOver (record c { signing = remove_at at c.signing }) s signs writes
            (record { over = v.over; bare = v.bare; idle = v.idle; same = v.same })

  step-IsOver : (c : Connection) (e : Event) → IsOver wire c → IsOver wire (step c e)
  unfolding step on_open on_close on_message advance_handshake timer_fires connect send destroy
  step-IsOver c (opened g) v =
      if_IsOver (eqb g c.generation) _ c
        (begin-IsOver (set_status (record c { handshake = greeting }) connected c.status.synced)
          hello g (record { over = v.over; bare = v.bare; idle = v.idle; same = v.same }))
        v
  step-IsOver c (closed g) v = if_IsOver (eqb g c.generation) _ c (lost-IsOver c v) v
  step-IsOver c (message event g) v =
      if_IsOver (eqb g c.generation) _ c
        (if_IsOver (is_done c.handshake) c _ v (advance-IsOver c event g v)) v
  step-IsOver c (signer at signs writes) v = signed-IsOver c at signs writes v
  step-IsOver c (timer opens) v = no_timer c.reconnect_handle v.idle
    where
      no_timer :
          (o : Option ℕ)
          → o ≡ none
          → IsOver wire
              (if is_waiting o then connect (record c { reconnect_handle = none }) opens else c)
      no_timer none e = v
      no_timer (some delay) e = absurd (cc)
  step-IsOver c (sent value) v =
      if_IsOver (is_done c.handshake) _ c (begin-IsOver c (asked value) c.generation v) v
  step-IsOver c destroyed v = record { over = refl; bare = refl; idle = refl; same = v.same }

  run-IsOver : (c : Connection) (es : List Event) → IsOver wire c → IsOver wire (run c es)
  unfolding run
  run-IsOver c [] v = v
  run-IsOver c (e ∷ es) v = run-IsOver (step c e) es (step-IsOver c e v)

-- A destroyed connection stays closed, puts nothing more on the wire, and never again has a socket
-- or a timer, whatever arrives late.
pub run-destroy :
    (c : Connection) (es : List Event)
    → ((run (destroy c) es).closed ≡ true)
      × ((run (destroy c) es).wire ≡ c.wire)
      × ((run (destroy c) es).socket ≡ none)
      × ((run (destroy c) es).reconnect_handle ≡ none)
unfolding destroy
run-destroy c es =
    let ended =
      run-IsOver (destroy c) es (record { over = refl; bare = refl; idle = refl; same = refl }) in
    (ended.over, ended.same, ended.bare, ended.idle)
