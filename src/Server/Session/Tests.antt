-- ===== src/Server/Session/Tests.antt =====
-- A session with a member of a playing room, and each theorem about frames at it.
use spotjam.Prelude.{
  pos, String, Bool, true, Option, some, none, [], ◌∷◌, ◌≡◌, ◌==◌, if◌then◌else◌, ◌⊎◌, arith, false,
}
use spotjam.Prelude.Dict
use spotjam.Protocol.Value.{Value, obj, entry, end, str, num}
use spotjam.Protocol.Envelope.{Envelope}
use spotjam.Server.ReplayGuard.{new_guard}
use spotjam.Server.IdentityStore.{empty_store}
use spotjam.Server.Rooms.{commit}
use spotjam.Server.Connections.{Connection}
use spotjam.Server.World.{World, publish}
use spotjam.Server.World.Timers.{wake_up, publish-pending}
use spotjam.Server.Session.Frames.{receive}
use spotjam.Server.Session.Rooms.{AllLive, commit-AllLive}
use spotjam.Server.Session.Authority.{IsAuthorized, receive-AllLive, receive-IsAuthorized}
use spotjam.Server.Tests.{playing, playing-IsSound, draws}

abbrev any_text : String → Bool
any_text s = true

abbrev as_is : String → String
as_is s = s

abbrev all_verify : Envelope → Bool
all_verify e = true

abbrev ann : Connection
ann = record {
  pubkey = some "a";
  username = some "ann";
  room_id = some "lobby";
  watching_list = false;
  watching_room_id = none;
}

abbrev world : World
world = record {
  rooms = commit [] playing;
  identities = empty_store;
  replay = new_guard (pos 60000) 100;
  connections = ("s1", ann) ∷ [];
  last_summary = [];
  pending = [];
  sent = [];
}

-- A signed skip in the lobby.
abbrev skip_frame : Option Value
skip_frame = some (
    obj (
      entry "pubkey" (str "a") (
        entry "nonce" (str "n1") (
          entry "timestamp" (num (pos 1000)) (
            entry "signature" (str "s") (
              entry "payload" (obj (entry "type" (str "skip") (entry "roomId" (str "lobby") end)))
                end))))))

world-AllLive : AllLive world.rooms
world-AllLive =
    commit-AllLive [] playing (λ k s e. absurd (unfold Dict.get in ground arith)) playing-IsSound

receive-AllLive_example :
    AllLive
      (receive any_text as_is any_text any_text all_verify world "s1" skip_frame
        (pos 1200)
        draws.rng).rooms
receive-AllLive_example =
    receive-AllLive any_text as_is any_text any_text all_verify world "s1" skip_frame (pos 1200)
      draws.rng world-AllLive

receive-IsAuthorized_example :
    ((receive any_text as_is any_text any_text all_verify world "s1" skip_frame
        (pos 1200)
        draws.rng).rooms
      ≡ world.rooms)
    ⊎ IsAuthorized any_text as_is any_text any_text all_verify world "s1" skip_frame (pos 1200)
receive-IsAuthorized_example =
    receive-IsAuthorized any_text as_is any_text any_text all_verify world "s1" skip_frame
      (pos 1200) draws.rng

publish-pending_example : Dict.get "lobby" (publish world "lobby" (pos 500)).pending ≡ (
    if "lobby" == "lobby"
    then wake_up (Dict.get "lobby" world.rooms) (pos 500)
    else Dict.get "lobby" world.pending)
publish-pending_example = publish-pending world "lobby" "lobby" (pos 500)
