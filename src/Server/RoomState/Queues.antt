-- ===== src/Server/RoomState/Queues.antt =====
-- apps/server/src/room-state.ts: what the queue operations do to a queue.
use mathlib.Core.List.{Perm}
use mathlib.Core.List.Perm
use spotjam.Prelude.{
  ℕ, zero, suc, String, not, ◌==◌, Option, some, List, [], ◌∷◌, map, keep_if, Distinct,
  Distinct-perm, Distinct-keep_if, get_elem?, arith, ◌≡◌, subst, Option-cases, Bool-cases, inl, inr,
}
use spotjam.Prelude.Dict
use spotjam.Prelude.Exchange.{swap-perm}
use spotjam.Prelude.Dict.{get-put}
use spotjam.Protocol.Types.{QueueItem}
use spotjam.Protocol.Tracks
use spotjam.Protocol.Tracks.{append_unique_tracks}
use spotjam.Protocol.Tracks.Append.{append_unique_tracks-Distinct}
use spotjam.Protocol.Tracks.Move.{move_many-perm}
use spotjam.Server.RoomState.Core.{Member, RoomState, map_queue, with_member}
use spotjam.Server.RoomState.Membership.{settle_pointer_keeps}
use spotjam.Server.RoomState.Ops.{extract, to_top, shuffle_from, exchange, Rng}

-- Each track once.
abbrev pub UniqueTracks : List QueueItem → Type 0
UniqueTracks queue = Distinct (map (λ item. item.track_id) queue)

UniqueTracks-perm : (xs ys : List QueueItem) → Perm xs ys → UniqueTracks xs → UniqueTracks ys
UniqueTracks-perm xs ys p = Distinct-perm _ _ (Perm.map (λ (item : QueueItem). item.track_id) p)

extract-perm :
    (item_id : String) (queue : List QueueItem) (moved : QueueItem) (next : List QueueItem)
    → extract item_id queue ≡ some (moved, next)
    → Perm (moved ∷ next) queue
unfolding extract
extract-perm item_id [] moved next h = absurd (ground arith)
extract-perm item_id (item ∷ rest) moved next h = elim (Bool-cases (item.id == item_id)) [
  | inl e ↦
      let same : ◌≡◌ {A = QueueItem × List QueueItem} (item, rest) (moved, next) = ground arith in
      subst (λ p. Perm (p.0 ∷ p.1) (item ∷ rest)) same (Perm.refl (item ∷ rest))
  | inr e ↦ elim (Option-cases (extract item_id rest)) [
    | inl f ↦ absurd (ground arith)
    | inr ((m, n), f) ↦
        let same : ◌≡◌ {A = QueueItem × List QueueItem} (m, item ∷ n) (moved, next) =
          ground arith in
        subst (λ p. Perm (p.0 ∷ p.1) (item ∷ rest)) same
          (Perm.trans (Perm.swap item m n) (Perm.cons item (extract-perm item_id rest m n f)))
  ]
]

-- Sending an item to the top reorders the queue.
pub to_top-perm : (item_id : String) (queue : List QueueItem) → Perm (to_top item_id queue) queue
unfolding to_top
to_top-perm item_id queue = elim (Option-cases (extract item_id queue)) [
  | inl e ↦ rw (e, to_top) (Perm.refl queue)
  | inr ((m, n), e) ↦ rw (e, to_top) (extract-perm item_id queue m n e)
]

exchange-perm : (xs : List QueueItem) (i j : ℕ) → Perm (exchange xs i j) xs
exchange-perm xs i j = elim (Option-cases (get_elem? xs i)) [
  | inl e ↦ rw (e, exchange) (Perm.refl xs)
  | inr (a, e) ↦ elim (Option-cases (get_elem? xs j)) [
    | inl f ↦ rw (e, exchange, f) (Perm.refl xs)
    | inr (b, f) ↦ rw (e, exchange, f) (swap-perm xs i j a b e f)
  ]
]

-- Whatever is drawn, a shuffle reorders the queue.
pub shuffle_from-perm :
    (i k : ℕ) (rng : Rng) (queue : List QueueItem) → Perm (shuffle_from i k rng queue) queue
unfolding shuffle_from
shuffle_from-perm zero k rng queue = Perm.refl queue
shuffle_from-perm (suc i) k rng queue =
    Perm.trans (shuffle_from-perm i (suc k) rng _)
      (exchange-perm queue (suc i) (rng k (suc (suc i))))

-- Every queue of the room holds each track once.
abbrev pub HasUniqueTracks : RoomState → Type 0
HasUniqueTracks s = (k : String) (m : Member) → Dict.get k s.members ≡ some m → UniqueTracks m.queue

pub with_member-HasUniqueTracks :
    (s : RoomState) (m : Member)
    → UniqueTracks m.queue
    → HasUniqueTracks s
    → HasUniqueTracks (with_member s m)
unfolding with_member
with_member-HasUniqueTracks s m u h k n e = elim (Bool-cases (m.pubkey == k)) [
  | inl c ↦
      let same : m ≡ n = ground (arith, get-put m.pubkey k m s.members) in
      subst (λ (x : Member). UniqueTracks x.queue) same u
  | inr c ↦ h k n (ground (arith, get-put m.pubkey k m s.members))
]

-- A queue operation keeps tracks unique if its transform does.
pub map_queue-HasUniqueTracks :
    (s : RoomState) (k : String) (f : List QueueItem → List QueueItem)
    → ((q : List QueueItem) → UniqueTracks q → UniqueTracks (f q))
    → HasUniqueTracks s
    → HasUniqueTracks (map_queue s k f)
unfolding map_queue
map_queue-HasUniqueTracks s k f keeps h = elim (Option-cases (Dict.get k s.members)) [
  | inl e ↦ rw (e, map_queue) h
  | inr (m, e) ↦
      rw (e, map_queue)
        λ j n found.
          with_member-HasUniqueTracks s (record m { queue = f m.queue }) (keeps m.queue (h k m e)) h
            j n
            (subst (λ ms. Dict.get j ms ≡ some n)
              (settle_pointer_keeps (with_member s (record m { queue = f m.queue }))).0 found)
]

pub enqueue_keeps :
    (items q : List QueueItem)
    → UniqueTracks q
    → UniqueTracks (append_unique_tracks (λ item. item.track_id) q items)
enqueue_keeps items q u = append_unique_tracks-Distinct (λ item. item.track_id) q items u

pub remove_keeps :
    (id : String) (q : List QueueItem)
    → UniqueTracks q
    → UniqueTracks (keep_if (λ item. not (item.id == id)) q)
remove_keeps id q u = Distinct-keep_if (λ item. item.track_id) (λ item. not (item.id == id)) q u

pub move_keeps :
    (ids : List String) (before : Option String) (q : List QueueItem)
    → UniqueTracks q
    → UniqueTracks (Tracks.move_many (λ item. item.id) q ids before)
move_keeps ids before q u =
    UniqueTracks-perm q _ (Perm.symm (move_many-perm (λ item. item.id) q ids before)) u

pub to_top_keeps : (id : String) (q : List QueueItem) → UniqueTracks q → UniqueTracks (to_top id q)
to_top_keeps id q u = UniqueTracks-perm q _ (Perm.symm (to_top-perm id q)) u

pub shuffle_keeps :
    (i k : ℕ) (rng : Rng) (q : List QueueItem)
    → UniqueTracks q
    → UniqueTracks (shuffle_from i k rng q)
shuffle_keeps i k rng q u = UniqueTracks-perm q _ (Perm.symm (shuffle_from-perm i k rng q)) u
