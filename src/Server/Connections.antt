-- ===== src/Server/Connections.antt =====
-- apps/server/src/connections.ts: the open sockets, each under a name of its own.
use spotjam.Prelude.{
  String, Bool, false, not, ◌&&◌, ◌==◌, Option, none, some, is_none, same_option, List, keep_if,
  Map,
}

-- `Connection`
pub record Connection : Type 0 where
  pub pubkey : Option String
  pub username : Option String
  pub room_id : Option String
  pub watching_list : Bool
  pub watching_room_id : Option String

-- `newConnection`
abbrev pub new_connection : Connection
new_connection = record {
  pubkey = none;
  username = none;
  room_id = none;
  watching_list = false;
  watching_room_id = none;
}

-- `a === b` of two strings that may be null
abbrev pub same_string : Option String → Option String → Bool
same_string = same_option (λ x y. x == y)

-- `connectionsInRoom`
unfoldable pub connections_in_room : Map Connection → String → List (String × Connection)
connections_in_room connections room_id =
    keep_if (λ c. same_string c.1.room_id (some room_id) && not (is_none c.1.pubkey)) connections

-- `connectionsWatchingList`
unfoldable pub connections_watching_list : Map Connection → List (String × Connection)
connections_watching_list connections =
    keep_if (λ c. c.1.watching_list && not (is_none c.1.pubkey)) connections

-- `connectionsWatchingRoom`
unfoldable pub connections_watching_room : Map Connection → String → List (String × Connection)
connections_watching_room connections room_id =
    keep_if (λ c. same_string c.1.watching_room_id (some room_id) && not (is_none c.1.pubkey))
      connections
