-- ===== src/Server/Session/Authority.antt =====
-- apps/server/src/session.ts: which frames may change a room.
use spotjam.Prelude.{
  ℤ, String, Bool, true, Option, none, some, ◌≡◌, refl, Option-cases, Bool-cases, inl, inr, ◌⊎◌,
}
use spotjam.Prelude.Dict
use spotjam.Protocol.Value.{Value, field, string_of}
use spotjam.Protocol.Ops.{OpType, is_op, is_query}
use spotjam.Protocol.Envelope.{Envelope, OpenResult, opened, failed, open_value, replay_window_ms}
use spotjam.Server.RoomState.Ops.{Rng}
use spotjam.Server.ReplayGuard.{ReplayGuard, admit}
use spotjam.Server.IdentityStore.{IdentityStore, RegisterResult, registered, refused, register}
use spotjam.Server.Connections.{Connection, same_string}
use spotjam.Server.World.{World}
use spotjam.Server.Session.Frames.{
  answer_registration, dispatch, claim_name, handle_payload, admit_payload, receive_envelope,
  receive_frame, receive,
}
use spotjam.Server.Session.Rooms.{AllLive}
use spotjam.Server.Session.Laws.{dispatch-rooms, dispatch-AllLive}

answer_registration-rooms :
    (w : World) (socket : String) (c : Connection) (pubkey : String)
    (answer : IdentityStore × RegisterResult)
    → (answer_registration w socket c pubkey answer).rooms ≡ w.rooms
answer_registration-rooms w socket c pubkey (store, refused why) = refl
answer_registration-rooms w socket c pubkey (store, registered r) = refl

-- An op of the envelope's author, who is the one that the socket has proved to be.
pub record IsOwn (c : Connection) (e : Envelope) : Type 0 where
  pub type : OpType
  pub op : is_op e.payload ≡ some type
  pub author : same_string c.pubkey (some e.pubkey) ≡ true

module _ (is_valid_username : String → Bool) (normalize_username : String → String) where
  claim_name-rooms :
      (w : World) (socket : String) (c : Connection) (pubkey : String) (name : Option String)
      (now : ℤ)
      → (claim_name is_valid_username normalize_username w socket c pubkey name now).rooms ≡ w.rooms
  unfolding claim_name
  claim_name-rooms w socket c pubkey none now = refl
  claim_name-rooms w socket c pubkey (some username) now =
      answer_registration-rooms w socket c pubkey
        (register is_valid_username normalize_username w.identities pubkey username now)

  -- A payload is answered without the rooms, or dispatched.
  handle_payload_cases :
      (w : World) (socket : String) (c : Connection) (pubkey : String) (payload : Value) (now : ℤ)
      (rng : Rng)
      → let after =
          handle_payload is_valid_username normalize_username w socket c pubkey payload now rng in
        (after.rooms ≡ w.rooms)
        ⊎ (after ≡ dispatch w socket c pubkey payload (is_op payload) (is_query payload) now rng)
  unfolding handle_payload
  handle_payload_cases w socket c pubkey payload now rng =
      let type = string_of (field "type" payload) in
      elim (Bool-cases (same_string type (some "register"))) [
        | inl e ↦ inl (
            rw (handle_payload, e)
              (claim_name-rooms w socket c pubkey (string_of (field "username" payload)) now))
        | inr e ↦ elim (Bool-cases (same_string type (some "hello"))) [
          | inr f ↦ inr (rw (handle_payload, e, f))
          | inl f ↦ elim (Option-cases (Dict.get pubkey w.identities.by_pubkey)) [
            | inl g ↦ inl (rw (handle_payload, e, f, g))
            | inr (r, g) ↦ inl (rw (handle_payload, e, f, g))
          ]
        ]
      ]

  module _ (is_public_key_hex is_signature_hex : String → Bool)
      (verify_bytes : Envelope → Bool) where
    -- What stands behind a frame that reaches a room.
    pub record IsAuthorized (w : World) (socket : String) (frame : Option Value) (now : ℤ)
        : Type 0 where
      pub connection : Connection
      pub open_socket : Dict.get socket w.connections ≡ some connection
      pub parsed : Value
      pub read : frame ≡ some parsed
      pub envelope : Envelope
      pub verified :
          open_value is_public_key_hex is_signature_hex verify_bytes parsed now replay_window_ms
          ≡ opened envelope
      pub fresh : (admit w.replay envelope.nonce now envelope.timestamp).1 ≡ true
      pub own : IsOwn connection envelope

    admit_payload_cases :
        (w : World) (socket : String) (c : Connection) (e : Envelope) (a : ReplayGuard × Bool)
        (now : ℤ) (rng : Rng)
        → ((admit_payload is_valid_username normalize_username w socket c e a now rng).rooms
            ≡ w.rooms)
          ⊎ ((a.1 ≡ true) × IsOwn c e)
    unfolding admit_payload
    admit_payload_cases w socket c e (guard, fresh) now rng = elim (Bool-cases fresh) [
      | inr f ↦ inl (rw (admit_payload, f))
      | inl f ↦
          let spent = record w { replay = guard } in
          elim (handle_payload_cases spent socket c e.pubkey e.payload now rng) [
            | inl same ↦ inl (rw (admit_payload, f) same)
            | inr on ↦ elim (dispatch-rooms spent socket c e.pubkey e.payload now rng) [
              | inl same ↦ inl (rw (admit_payload, f) (rw on same))
              | inr (author, type, op) ↦ inr (f, record { type = type; op = op; author = author })
            ]
          ]
    ]

    -- A frame leaves all rooms as they are, unless it is an op in an envelope that opens, with a
    -- nonce that the guard admits, by the key that its open socket has proved.
    pub receive-IsAuthorized :
        (w : World) (socket : String) (frame : Option Value) (now : ℤ) (rng : Rng)
        → ((receive is_valid_username normalize_username is_public_key_hex is_signature_hex
              verify_bytes w socket frame now rng).rooms
            ≡ w.rooms)
          ⊎ IsAuthorized w socket frame now
    unfolding receive receive_frame receive_envelope
    receive-IsAuthorized w socket none now rng =
        elim (Option-cases (Dict.get socket w.connections)) [
          | inl e ↦ inl (rw (receive, e))
          | inr (c, e) ↦ inl (rw (receive, e))
        ]
    receive-IsAuthorized w socket (some parsed) now rng =
        elim (Option-cases (Dict.get socket w.connections)) [
          | inl e ↦ inl (rw (receive, e))
          | inr (c, e) ↦ with_result c e _ refl
        ]
      where
        result : OpenResult
        result =
            open_value is_public_key_hex is_signature_hex verify_bytes parsed now replay_window_ms

        with_result :
            (c : Connection)
            → Dict.get socket w.connections ≡ some c
            → (r : OpenResult) → result ≡ r
            → ((receive is_valid_username normalize_username is_public_key_hex is_signature_hex
                  verify_bytes w socket
                  (some parsed)
                  now
                  rng).rooms
                ≡ w.rooms)
              ⊎ IsAuthorized w socket (some parsed) now
        with_result c e (failed why) f = inl (rw (receive, e, receive_frame, f, receive_envelope))
        with_result c e (opened v) f =
            elim (admit_payload_cases w socket c v (admit w.replay v.nonce now v.timestamp) now
              rng) [
                | inl same ↦ inl (rw (receive, e, receive_frame, f, receive_envelope) same)
                | inr (fresh, own) ↦ inr (record {
                  connection = c;
                  open_socket = e;
                  parsed = parsed;
                  read = refl;
                  envelope = v;
                  verified = f;
                  fresh = fresh;
                  own = own;
                })
              ]

    admit_payload-AllLive :
        (w : World) (socket : String) (c : Connection) (e : Envelope) (a : ReplayGuard × Bool)
        (now : ℤ) (rng : Rng)
        → AllLive w.rooms
        → AllLive (admit_payload is_valid_username normalize_username w socket c e a now rng).rooms
    unfolding admit_payload
    admit_payload-AllLive w socket c e (guard, fresh) now rng v = elim (Bool-cases fresh) [
      | inr f ↦ rw (admit_payload, f) v
      | inl f ↦
          let spent = record w { replay = guard } in
          elim (handle_payload_cases spent socket c e.pubkey e.payload now rng) [
            | inl same ↦ rw (admit_payload, f) (rw same v)
            | inr on ↦
                rw (admit_payload, f)
                  (rw on (dispatch-AllLive spent socket c e.pubkey e.payload now rng v))
          ]
    ]

    -- Where every live room is sound, has somebody in it and stands under its id, every live room
    -- still is and does after any frame, whatever it holds.
    pub receive-AllLive :
        (w : World) (socket : String) (frame : Option Value) (now : ℤ) (rng : Rng)
        → AllLive w.rooms
        → AllLive
            (receive is_valid_username normalize_username is_public_key_hex is_signature_hex
              verify_bytes w socket frame now rng).rooms
    unfolding receive receive_frame receive_envelope
    receive-AllLive w socket frame now rng v = elim (Option-cases (Dict.get socket w.connections)) [
      | inl e ↦ rw (receive, e) v
      | inr (c, e) ↦ rw (receive, e) (framed c frame)
    ]
      where
        enveloped :
            (c : Connection) (r : OpenResult)
            → AllLive
                (receive_envelope is_valid_username normalize_username is_public_key_hex
                  is_signature_hex verify_bytes w socket c r now rng).rooms
        enveloped c (failed why) = v
        enveloped c (opened e) =
            admit_payload-AllLive w socket c e (admit w.replay e.nonce now e.timestamp) now rng v

        framed :
            (c : Connection) (f : Option Value)
            → AllLive
                (receive_frame is_valid_username normalize_username is_public_key_hex
                  is_signature_hex verify_bytes w socket c f now rng).rooms
        framed c none = v
        framed c (some parsed) =
            enveloped c (
              open_value is_public_key_hex is_signature_hex verify_bytes parsed now
                replay_window_ms)
