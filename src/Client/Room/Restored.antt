-- ===== src/Client/Room/Restored.antt =====
-- apps/desktop/src/lib/room.ts, with the store and the server: a queue handed back to a server that
-- lost it, and the role of broadcaster claimed again.
use spotjam.Prelude.{
  ℤ, String, Bool, true, false, not, eq_iff, eq_refl, ◌||◌, if◌then◌else◌, Option, none, some, List,
  [], ◌∷◌, ◌++◌, map, Distinct, ◌∙◌, append-nil, sym, ◌&&◌, arith, ◌≡◌, refl,
}
use spotjam.Prelude.Dict
use spotjam.Protocol.Types.{QueueItem, RoomSnapshot}
use spotjam.Protocol.Tracks.{append_unique_tracks, is_empty}
use spotjam.Protocol.Tracks.Append.{append_unique_tracks-nil}
use spotjam.Server.World.{ServerEvent}
use spotjam.Server.RoomState.Core.{Member, RoomState}
use spotjam.Server.RoomState.Core.{map_queue, with_member, settle_pointer}
use spotjam.Server.RoomState.Ops
use spotjam.Protocol.Ops.{OpType}
use spotjam.Server.HandleOp.{OpContext, apply_op}
use spotjam.Client.Ops.{op_value}
use spotjam.Client.Ops.Wire.{op_value_read, meant, type_of, IsSendable}
use spotjam.Client.QueueStore.{Storage}
use spotjam.Client.QueueStore.Kept.{load_queue-All}
use spotjam.Server.RoomState.View as Server
use spotjam.Server.RoomState.Membership.{settle_pointer_keeps}
use spotjam.Prelude.Dict.{get-put}
use spotjam.Client.View.{reduce, take_snapshot, queue_to_restore, is_broadcasting}
use spotjam.Client.Ops.{Op}
use spotjam.Client.QueueStore.{load_queue, save_queue}
use spotjam.Client.Room.{
  RoomClient, is_elsewhere, see, after_seeing, on_event, persist_queue, restore_broadcasting,
  enqueue_some, send_op,
}

-- The op that a snapshot makes a room claim its role again by.
abbrev pub role_claim : Bool → Bool → List Op
role_claim true false = Op.set_broadcasting true ∷ []
role_claim was now = []

abbrev pub offer : List QueueItem → List Op
offer [] = []
offer (i ∷ is) = Op.enqueue (i ∷ is) ∷ []

enqueue_some_lem :
    (c : RoomClient) (items : List QueueItem)
    → enqueue_some c items ≡ record c { asked = c.asked ++ offer items }
enqueue_some_lem c [] = rw (append-nil c.asked)
enqueue_some_lem c (i ∷ is) = refl

-- What is stored is handed back where the snapshot shows an empty queue.
queue_to_restore_lem :
    (stored : List QueueItem) (s : RoomSnapshot)
    → queue_to_restore stored s ≡ (if is_empty s.my_queue then stored else [])
unfolding queue_to_restore
queue_to_restore_lem stored s = by_queue s.my_queue
  where
    by_queue :
        (mine : List QueueItem)
        → elim mine [ [] ↦ stored | i ∷ is ↦ [] ] ≡ (if is_empty mine then stored else [])
    by_queue [] = refl
    by_queue (i ∷ is) = refl

abbrev offered : Bool → List QueueItem → List QueueItem → List Op
offered was_synced stored mine =
    if was_synced then [] else offer (if is_empty mine then stored else [])

persist_queue_lem :
    (c : RoomClient) (s : RoomSnapshot) (was_synced : Bool)
    → c.view.status.synced ≡ true
    → persist_queue c s was_synced ≡ record c {
      storage = save_queue c.storage c.room_id s.my_queue;
      asked = c.asked ++ offered was_synced (load_queue c.storage c.room_id) s.my_queue;
    }
unfolding persist_queue
persist_queue_lem c s true synced = rw (append-nil c.asked)
persist_queue_lem c s false synced = rw (synced, enqueue_some_lem, queue_to_restore_lem)

-- What a restored role leaves of the client.
record Restored (was_synced : Bool) (before : RoomClient) (now : Bool) (after : RoomClient)
    : Type 0 where
  claims :
      after.asked
      ≡ before.asked ++ (if was_synced then [] else role_claim before.was_broadcasting now)
  stored : after.storage ≡ before.storage
  viewed : after.view ≡ before.view
  remembers : after.was_broadcasting ≡ now || (before.was_broadcasting && not was_synced)

restore_broadcasting_lem :
    (c : RoomClient) (was_synced : Bool)
    → c.view.status.synced ≡ true
    → Restored was_synced c (is_broadcasting c.view c.my_pubkey) (restore_broadcasting c was_synced)
unfolding restore_broadcasting
restore_broadcasting_lem c was_synced synced =
    by_case was_synced c.view.status.synced c.was_broadcasting (is_broadcasting c.view c.my_pubkey)
      synced refl
  where
    by_case :
        (before seen was now : Bool)
        → seen ≡ true
        → c.was_broadcasting ≡ was
        → Restored before c now (
            if not before && (seen && (was && not now))
            then send_op c (Op.set_broadcasting true)
            else record c { was_broadcasting = now })
    by_case true seen was now e f = record {
      claims = sym (append-nil c.asked);
      stored = refl;
      viewed = refl;
      remembers = ground (arith, f);
    }
    by_case false false was now e f = cc
    by_case false true true true e f = record {
      claims = rw f (sym (append-nil c.asked));
      stored = refl;
      viewed = refl;
      remembers = refl;
    }
    by_case false true true false e f = record {
      claims = rw f refl;
      stored = refl;
      viewed = refl;
      remembers = rw f refl;
    }
    by_case false true false now e f = record {
      claims = rw f (sym (append-nil c.asked));
      stored = refl;
      viewed = refl;
      remembers = ground (arith, f);
    }

on_event_here :
    (c : RoomClient) (s : RoomSnapshot) (now : ℤ)
    → s.room_id ≡ c.room_id
    → on_event c (ServerEvent.room_state s) now
      ≡ restore_broadcasting
          (persist_queue (see c (ServerEvent.room_state s) now) s c.view.status.synced)
          c.view.status.synced
unfolding on_event is_elsewhere after_seeing
on_event_here c s now here = rw ((eq_iff s.room_id c.room_id).1 here) refl

-- At a snapshot of its room, a room client that was not synced offers what the store held for the
-- room, if the snapshot shows an empty queue of its own and the store held any, then claims the
-- role of broadcaster if it had it and the snapshot denies it, and asks nothing else; one that was
-- synced asks nothing. Either way it keeps the snapshot, stores the queue that it shows and is
-- synced, and from then on it counts as having had the role if the snapshot says so, or if it has
-- just claimed it.
pub snapshot_asks :
    (c : RoomClient) (s : RoomSnapshot) (now : ℤ)
    → s.room_id ≡ c.room_id
    → let after = on_event c (ServerEvent.room_state s) now in
      let stored = load_queue c.storage c.room_id in
      let role = is_broadcasting after.view c.my_pubkey in
      (after.asked
        ≡ (c.asked
            ++ (if c.view.status.synced
                then []
                else offer (if is_empty s.my_queue then stored else [])))
          ++ (if c.view.status.synced then [] else role_claim c.was_broadcasting role))
      × (after.view.snapshot ≡ some s)
      × (after.storage ≡ save_queue c.storage c.room_id s.my_queue)
      × (after.view.status.synced ≡ true)
      × (after.was_broadcasting ≡ role || (c.was_broadcasting && not c.view.status.synced))
unfolding see reduce take_snapshot
snapshot_asks c s now here =
    let seen = see c (ServerEvent.room_state s) now in
    let was = c.view.status.synced in
    let kept : RoomClient = record seen {
      storage = save_queue c.storage c.room_id s.my_queue;
      asked = c.asked ++ offered was (load_queue c.storage c.room_id) s.my_queue;
    } in
    let r = restore_broadcasting_lem kept was refl in
    rw (on_event_here c s now here, persist_queue_lem seen s was refl, r.viewed)
      (r.claims, refl, r.stored, refl, r.remembers)

map_queue_found :
    (s : RoomState) (pk : String) (m : Member) (f : List QueueItem → List QueueItem)
    → Dict.get pk s.members ≡ some m
    → map_queue s pk f ≡ settle_pointer (with_member s (record m { queue = f m.queue }))
unfolding map_queue
map_queue_found s pk m f found = found_in (Dict.get pk s.members) found
  where
    found_in :
        (o : Option Member)
        → o ≡ some m
        → elim o [
          | none ↦ s
          | some member ↦ settle_pointer (with_member s (record member { queue = f member.queue }))
        ]
          ≡ settle_pointer (with_member s (record m { queue = f m.queue }))
    found_in o e = rw e refl

queue_at :
    (s : RoomState) (pk : String) (m : Member)
    → Dict.get pk s.members ≡ some m
    → Server.queue_of s pk ≡ m.queue
queue_at s pk m found = ground (arith, found)

queue_of-enqueue :
    (s : RoomState) (pk : String) (m : Member) (items : List QueueItem)
    → Dict.get pk s.members ≡ some m
    → m.pubkey ≡ pk
    → Server.queue_of (Ops.enqueue s pk items) pk
      ≡ append_unique_tracks (λ i. i.track_id) m.queue items
unfolding Ops.enqueue with_member
queue_of-enqueue s pk m items found mine =
    let fuller = record m { queue = append_unique_tracks (λ item. item.track_id) m.queue items } in
    rw (map_queue_found s pk m _ found) (
      queue_at (settle_pointer (with_member s fuller)) pk fuller
        (rw ((settle_pointer_keeps (with_member s fuller)).0, get-put, mine, eq_refl)))

-- A stored queue of distinct tracks, sent as an enqueue by a member whose queue is empty, is not
-- refused, whatever the store held, and leaves the member with exactly that queue.
pub apply_op-load_queue :
    (storage : Storage) (room_id pk : String) (s : RoomState) (m : Member) (ctx : OpContext)
    → Dict.get pk s.members ≡ some m
    → m.pubkey ≡ pk
    → m.queue ≡ []
    → Distinct (map (λ item. item.track_id) (load_queue storage room_id))
    → let op = op_value room_id (Op.enqueue (load_queue storage room_id)) in
      ((apply_op s pk OpType.enqueue op ctx).error ≡ none)
      × (Server.queue_of (apply_op s pk OpType.enqueue op ctx).state pk
          ≡ load_queue storage room_id)
unfolding meant type_of IsSendable
apply_op-load_queue storage room_id pk s m ctx found mine bare distinct =
    let items = load_queue storage room_id in
    let read =
      (op_value_read room_id (Op.enqueue items) s pk ctx (load_queue-All storage room_id)).1 in
    rw read (
      refl,
      queue_of-enqueue s pk m items found mine
          ∙ rw bare (append_unique_tracks-nil (λ item. item.track_id) items distinct),
    )
