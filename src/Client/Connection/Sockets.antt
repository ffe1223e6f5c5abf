-- ===== src/Client/Connection/Sockets.antt =====
-- apps/desktop/src/lib/connection.ts: the sockets of a line, and the timer that opens the next.
use spotjam.Prelude.{
  ℕ, suc, ◌≤◌, pos, Bool, true, false, ◌||◌, eqb, ◌≢◌, if◌then◌else◌, Option, none, some, List,
  arith, ◌≡◌, refl,
}
use spotjam.Client.View.{ConnectionStatus, backoff_ms, connecting, disconnected}
use spotjam.Client.View.Backoff.{backoff_ms_bounds}
use spotjam.Client.Ops.Wire.{All}
use spotjam.Client.Connection.{
  Connection, Frame, Signing, Handshake, schedule_reconnect, connect, is_waiting, set_status,
  on_handshake_send_failure, on_close,
}

-- A frame went out on the socket that it was sent under.
abbrev pub OnItsSocket : Frame → Type 0
OnItsSocket frame = frame.socket ≡ frame.generation

pub record IsLine (c : Connection) : Type 0 where
  pub alive : c.closed ≡ false → c.socket ≡ none → c.reconnect_handle ≢ none
  pub quiet : c.closed ≡ true → (c.socket ≡ none) × (c.reconnect_handle ≡ none)
  pub apart : c.reconnect_handle ≢ none → c.socket ≡ none
  pub current : (s : ℕ) → c.socket ≡ some s → s ≡ c.generation
  pub paced : (delay : ℕ) → c.reconnect_handle ≡ some delay → (500 ≤ delay) × (delay ≤ 15000)
  pub own : All OnItsSocket c.wire

-- The invariant does not look at the status, the handshake, the payloads that wait or the attempts.
pub relabelled :
    (c : Connection) (status : ConnectionStatus) (h : Handshake) (waiting : List Signing)
    (attempt : ℕ)
    → IsLine c
    → IsLine (record c {
      status = status;
      handshake = h;
      signing = waiting;
      reconnect_attempt = attempt;
    })
relabelled c status h waiting attempt v = record {
  alive = v.alive;
  quiet = v.quiet;
  apart = v.apart;
  current = v.current;
  paced = v.paced;
  own = v.own;
}

pub if_IsLine :
    (b : Bool) (x y : Connection)
    → (b ≡ true → IsLine x)
    → (b ≡ false → IsLine y)
    → IsLine (if b then x else y)
if_IsLine true x y p q = p refl
if_IsLine false x y p q = q refl

-- A connection that has lost its socket, before it schedules the next.
pub record IsCut (c : Connection) : Type 0 where
  pub bare : c.socket ≡ none
  pub still : c.closed ≡ true → c.reconnect_handle ≡ none
  pub steady : (delay : ℕ) → c.reconnect_handle ≡ some delay → (500 ≤ delay) × (delay ≤ 15000)
  pub kept : All OnItsSocket c.wire

pub waiting_ne_none : (o : Option ℕ) → is_waiting o ≡ true → o ≢ none
waiting_ne_none none h e = cc
waiting_ne_none (some d) h e = cc

schedule_reconnect-IsLine : (c : Connection) → IsCut c → IsLine (schedule_reconnect c)
unfolding schedule_reconnect
schedule_reconnect-IsLine c v =
    if_IsLine (c.closed || is_waiting c.reconnect_handle) c _
      (λ stays. record {
        alive = λ on bare. waiting_ne_none c.reconnect_handle (ground arith);
        quiet = λ over. (v.bare, v.still over);
        apart = λ waits. v.bare;
        current = λ s has. cc (v.bare);
        paced = v.steady;
        own = v.kept;
      })
      (λ starts. record {
        alive = λ on bare none_set. cc;
        quiet = λ over. absurd (ground arith);
        apart = λ waits. v.bare;
        current = λ s has. cc (v.bare);
        paced = λ delay set. paced_by delay set;
        own = v.kept;
      })
  where
    paced_by :
        (delay : ℕ)
        → some (backoff_ms (pos c.reconnect_attempt)) ≡ some delay
        → (500 ≤ delay) × (delay ≤ 15000)
    paced_by delay set =
        let p = pos c.reconnect_attempt in
        let bounds = backoff_ms_bounds p p (omega arith) in ground (arith, bounds.0, bounds.2)

pub connect-IsLine :
    (c : Connection) (opens : Bool)
    → (c.closed ≡ true → IsLine c)
    → IsCut c
    → c.reconnect_handle ≡ none
    → IsLine (connect c opens)
unfolding connect
connect-IsLine c opens v cut idle = if_IsLine c.closed c _ v λ on.
    let next = set_status (record c { generation = suc c.generation }) connecting false in
    if_IsLine opens (record next { socket = some next.generation }) (schedule_reconnect next)
      (λ _. record {
        alive = λ _ bare. cc;
        quiet = λ over. absurd (ground arith);
        apart = λ waits. absurd (waits idle);
        current = λ s has. ground arith;
        paced = cut.steady;
        own = cut.kept;
      })
      (λ _.
        schedule_reconnect-IsLine next
          (record { bare = cut.bare; still = cut.still; steady = cut.steady; kept = cut.kept }))

-- Losing the socket of a line cuts it.
lost-IsCut :
    (c : Connection) → IsLine c → IsCut (set_status (record c { socket = none }) disconnected false)
lost-IsCut c v = record {
  bare = refl;
  still = λ over. (v.quiet over).1;
  steady = v.paced;
  kept = v.own;
}

pub on_handshake_send_failure-IsLine :
    (c : Connection) → IsLine c → IsLine (on_handshake_send_failure c)
unfolding on_handshake_send_failure
on_handshake_send_failure-IsLine c v = schedule_reconnect-IsLine _ (lost-IsCut c v)

pub on_close-IsLine : (c : Connection) (generation : ℕ) → IsLine c → IsLine (on_close c generation)
unfolding on_close
on_close-IsLine c generation v =
    if_IsLine (eqb generation c.generation) _ c (λ _. schedule_reconnect-IsLine _ (lost-IsCut c v))
      (λ _. v)
