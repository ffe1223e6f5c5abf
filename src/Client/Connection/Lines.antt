-- ===== src/Client/Connection/Lines.antt =====
-- apps/desktop/src/lib/connection.ts: a line is never stuck, and never crossed with another.
use spotjam.Prelude.{
  ℕ, Bool, ◌&&◌, eqb, Option, none, some, List, [], ◌∷◌, ◌++◌, get_elem?, arith, ◌≡◌, refl, String,
  sym, ◌∙◌,
}
use spotjam.Protocol.Ops.{ErrorCode, unknown_identity}
use spotjam.Server.World.{ServerEvent}
use spotjam.Client.View.{connected}
use spotjam.Client.Ops.Wire.{All}
use spotjam.Client.Connection.{
  Connection, Signing, Payload, Handshake, greeting, registering, done, failed, hello, register,
  asked, Event, opened, closed, message, signer, timer, sent, destroyed, step, run, new_connection,
  unconnected, begin_send, is_waiting, set_status, not_sent, put_on_wire, end_send, signed,
  remove_at, on_open, on_error, advance_started, advance_handshake, is_done, on_message,
  timer_fires, send, destroy, is_auth,
}
use spotjam.Client.Connection.Sockets.{
  OnItsSocket, IsLine, relabelled, if_IsLine, waiting_ne_none, connect-IsLine,
  on_handshake_send_failure-IsLine, on_close-IsLine,
}

begin_send-IsLine :
    (c : Connection) (payload : Payload) (generation : ℕ)
    → IsLine c
    → IsLine (begin_send c payload generation)
unfolding begin_send
begin_send-IsLine c payload generation v =
    if_IsLine (eqb generation c.generation) _ c
      (λ _.
        relabelled c c.status c.handshake
          (c.signing ++ record { generation = generation; payload = payload } ∷ [])
          c.reconnect_attempt v)
      (λ _. v)

not_sent-IsLine : (c : Connection) (s : Signing) → IsLine c → IsLine (not_sent c s)
unfolding not_sent
not_sent-IsLine c s v =
    if_IsLine (is_auth s.payload && eqb s.generation c.generation) _ c
      (λ _. on_handshake_send_failure-IsLine c v) (λ _. v)

All-append_one {ℓ} :
    {A : Type ℓ} (P : A → Type 0) (xs : List A) (x : A) → All P xs → P x → All P (xs ++ x ∷ [])
All-append_one P [] x h p = (p, tt)
All-append_one P (y ∷ xs) x h p = (h.0, All-append_one P xs x h.1 p)

put_on_wire-IsLine :
    (c : Connection) (at : Option ℕ) (s : Signing) (writes : Bool)
    → c.socket ≡ at
    → s.generation ≡ c.generation
    → IsLine c
    → IsLine (put_on_wire c at s writes)
unfolding put_on_wire
put_on_wire-IsLine c none s writes here now v = not_sent-IsLine c s v
put_on_wire-IsLine c (some socket) s writes here now v =
    if_IsLine writes _ (not_sent c s)
      (λ _. record {
        alive = v.alive;
        quiet = v.quiet;
        apart = v.apart;
        current = v.current;
        paced = v.paced;
        own = All-append_one OnItsSocket c.wire _ v.own (v.current socket here ∙ sym now);
      })
      (λ _. not_sent-IsLine c s v)

end_send-IsLine :
    (c : Connection) (s : Signing) (signs writes : Bool)
    → IsLine c
    → IsLine (end_send c s signs writes)
unfolding end_send
end_send-IsLine c s signs writes v =
    if_IsLine (signs && eqb s.generation c.generation) _ (not_sent c s)
      (λ h. put_on_wire-IsLine c c.socket s writes refl (ground arith) v)
      (λ _. not_sent-IsLine c s v)

signed-IsLine :
    (c : Connection) (at : ℕ) (signs writes : Bool) → IsLine c → IsLine (signed c at signs writes)
unfolding signed
signed-IsLine c at signs writes v = found (get_elem? c.signing at)
  where
    found :
        (o : Option Signing)
        → IsLine (elim o [
          | none ↦ c
          | some s ↦ end_send (record c { signing = remove_at at c.signing }) s signs writes
        ])
    found none = v
    found (some s) =
        end_send-IsLine (record c { signing = remove_at at c.signing }) s signs writes
          (relabelled c c.status c.handshake (remove_at at c.signing) c.reconnect_attempt v)

on_open-IsLine : (c : Connection) (generation : ℕ) → IsLine c → IsLine (on_open c generation)
unfolding on_open
on_open-IsLine c generation v =
    if_IsLine (eqb generation c.generation) _ c
      (λ _.
        begin_send-IsLine (set_status (record c { handshake = greeting }) connected c.status.synced)
          hello generation
          (relabelled c (record { socket = connected; synced = c.status.synced }) greeting c.signing
            c.reconnect_attempt v))
      (λ _. v)

on_error-IsLine :
    (c : Connection) (h : Handshake) (code : ErrorCode) (generation : ℕ)
    → IsLine c
    → IsLine (on_error c h code generation)
unfolding on_error
on_error-IsLine c greeting unknown_identity generation v =
    begin_send-IsLine (record c { handshake = registering }) (register c.username) generation
      (relabelled c c.status registering c.signing c.reconnect_attempt v)
on_error-IsLine c registering code generation v =
    relabelled c c.status failed c.signing c.reconnect_attempt v
on_error-IsLine c h code generation v = v

advance_started-IsLine :
    (c : Connection) (event : ServerEvent) (generation : ℕ)
    → IsLine c
    → IsLine (advance_started c event generation)
unfolding advance_started
advance_started-IsLine c (ServerEvent.registered pubkey username) generation v =
    relabelled c c.status done c.signing 0 v
advance_started-IsLine c (ServerEvent.error code) generation v =
    on_error-IsLine c c.handshake code generation v
advance_started-IsLine c event generation v = v

on_message-IsLine :
    (c : Connection) (event : ServerEvent) (generation : ℕ)
    → IsLine c
    → IsLine (on_message c event generation)
unfolding on_message advance_handshake
on_message-IsLine c event generation v =
    if_IsLine (eqb generation c.generation) (advance_handshake c event generation) c
      (λ _.
        if_IsLine (is_done c.handshake) c _ (λ _. v)
          (λ _. advance_started-IsLine c event generation v))
      (λ _. v)

timer_fires-IsLine : (c : Connection) (opens : Bool) → IsLine c → IsLine (timer_fires c opens)
unfolding timer_fires
timer_fires-IsLine c opens v =
    if_IsLine (is_waiting c.reconnect_handle) _ c
      (λ waits.
        let set = waiting_ne_none c.reconnect_handle waits in
        connect-IsLine (record c { reconnect_handle = none }) opens
          (λ over. absurd (set (v.quiet over).1))
          (record { bare = v.apart set; still = λ _. refl; steady = λ delay h. cc; kept = v.own })
          refl)
      (λ _. v)

destroy-IsLine : (c : Connection) → IsLine c → IsLine (destroy c)
unfolding destroy
destroy-IsLine c v = record {
  alive = λ on. cc;
  quiet = λ _. (refl, refl);
  apart = λ _. refl;
  current = λ s has. cc;
  paced = λ delay set. cc;
  own = v.own;
}

step-IsLine : (c : Connection) (e : Event) → IsLine c → IsLine (step c e)
unfolding step send
step-IsLine c (opened generation) v = on_open-IsLine c generation v
step-IsLine c (closed generation) v = on_close-IsLine c generation v
step-IsLine c (message event generation) v = on_message-IsLine c event generation v
step-IsLine c (signer at signs writes) v = signed-IsLine c at signs writes v
step-IsLine c (timer opens) v = timer_fires-IsLine c opens v
step-IsLine c (sent value) v =
    if_IsLine (is_done c.handshake) _ c (λ _. begin_send-IsLine c (asked value) c.generation v)
      (λ _. v)
step-IsLine c destroyed v = destroy-IsLine c v

run-kept : (c : Connection) (es : List Event) → IsLine c → IsLine (run c es)
unfolding run
run-kept c [] v = v
run-kept c (e ∷ es) v = run-kept (step c e) es (step-IsLine c e v)

new_connection-IsLine : (username : String) (opens : Bool) → IsLine (new_connection username opens)
unfolding new_connection
new_connection-IsLine username opens =
    connect-IsLine (unconnected username) opens (λ over. cc)
      (record { bare = refl; still = λ _. refl; steady = λ delay h. cc; kept = tt }) refl

-- After any events from a new connection on: unless it was destroyed it has a socket or a timer
-- that will open one, never both, and destroyed it has neither; its socket is that of the present
-- generation; each delay is between half a second and fifteen seconds; and each frame went out on
-- the socket that it was sent under.
pub run-IsLine :
    (username : String) (opens : Bool) (es : List Event)
    → IsLine (run (new_connection username opens) es)
run-IsLine username opens es = run-kept _ es (new_connection-IsLine username opens)
