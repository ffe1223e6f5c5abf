-- ===== src/Client/View/Members.antt =====
-- apps/server/src/room-state.ts: who stands under a key, among members, in turn order and rotated.
use spotjam.Prelude.{
  ℕ, ◌+◌, ◌%◌, String, Bool, true, false, ◌==◌, eq_iff, if◌then◌else◌, Bool-cases, Option-cases,
  Option, none, some, List, [], ◌∷◌, ◌++◌, map, keep_if, includes, includes-append,
  Distinct-keep_if, is_none, Distinct, Distinct-append, length, take, drop, take-append-drop, Map,
  arith, ◌≡◌, refl, sym, inl, inr,
}
use mathlib.Core.List.{map-append}
use spotjam.Prelude.Dict
use spotjam.Server.RoomState.Core.{Member, RoomState, members_in_order, is_feeder, rotate}
use spotjam.Server.RoomState.View.{feeding_members}
use spotjam.Server.RoomState.Membership.{IsRoster, lookups, members_in_order-lookups}

abbrev pub pubkeys : List Member → List String
pubkeys members = map (λ m. m.pubkey) members

unfoldable pub find_member : String → List Member → Option Member
find_member pk [] = none
find_member pk (m ∷ rest) = if m.pubkey == pk then some m else find_member pk rest

pub find_member-absent :
    (pk : String) (ms : List Member) → includes pk (pubkeys ms) ≡ false → find_member pk ms ≡ none
unfolding find_member
find_member-absent pk [] h = refl
find_member-absent pk (m ∷ ms) h = ground (arith, find_member-absent pk ms)

or_else : Option Member → Option Member → Option Member
or_else none other = other
or_else (some m) other = some m

find_member-append :
    (pk : String) (xs ys : List Member)
    → find_member pk (xs ++ ys) ≡ or_else (find_member pk xs) (find_member pk ys)
unfolding find_member or_else
find_member-append pk [] ys = refl
find_member-append pk (x ∷ xs) ys = elim (Bool-cases (x.pubkey == pk)) [
  | inl e ↦ rw e
  | inr e ↦ rw e (find_member-append pk xs ys)
]

Distinct-parts :
    (xs ys : List String)
    → Distinct (xs ++ ys)
    → Distinct xs × Distinct ys × ((t : String) → includes t ys ≡ true → includes t xs ≡ false)
Distinct-parts [] ys d = (tt, d, λ t h. refl)
Distinct-parts (x ∷ xs) ys d =
    let (dx, dy, apart) = Distinct-parts xs ys d.1 in
    let split = includes-append x xs ys in
    ((ground arith, dx), dy, λ t h. ground (arith, apart t h, eq_iff x t))

or_else-none : (o : Option Member) → or_else o none ≡ o
unfolding or_else
or_else-none none = refl
or_else-none (some m) = refl

-- A rotation of a list without repetition is one, and holds the same members.
swapped :
    (pk : String) (xs ys : List Member)
    → Distinct (pubkeys (xs ++ ys))
    → Distinct (pubkeys (ys ++ xs)) × (find_member pk (ys ++ xs) ≡ find_member pk (xs ++ ys))
unfolding or_else
swapped pk xs ys d =
    let (dx, dy, apart) = Distinct-parts (pubkeys xs) (pubkeys ys) (rw (map-append) at d) in
    (
      rw (map-append) (
          Distinct-append (pubkeys ys) (pubkeys xs) dy dx (λ t h.
            elim (Bool-cases (includes t (pubkeys ys))) [
              | inl e ↦ absurd (ground (arith, apart t e))
              | inr e ↦ e
            ])),
      rw (find_member-append, find_member-append)
          (elim (Bool-cases (includes pk (pubkeys ys))) [
            | inl e ↦ rw (find_member-absent pk xs (apart pk e)) (or_else-none (find_member pk ys))
            | inr e ↦ rw (find_member-absent pk ys e) (sym (or_else-none (find_member pk xs)))
          ]),
    )

pub rotated :
    (pk : String) (ms : List Member) (by : ℕ)
    → Distinct (pubkeys ms)
    → Distinct (pubkeys (rotate ms by)) × (find_member pk (rotate ms by) ≡ find_member pk ms)
unfolding rotate
rotated pk [] by d = (tt, refl)
rotated pk (m ∷ ms) by d =
    let k = (by % length (m ∷ ms) + length (m ∷ ms)) % length (m ∷ ms) in
    let whole = take-append-drop k (m ∷ ms) in
    rw (whole) at (swapped pk (take k (m ∷ ms)) (drop k (m ∷ ms)) (rw whole d))

-- Of a member who is found, a filter leaves what its test says.
pub find_member-keep_if :
    (P : Member → Bool) (pk : String) (ms : List Member)
    → Distinct (pubkeys ms)
    → find_member pk (keep_if P ms)
      ≡ elim (find_member pk ms) [ none ↦ none | some m ↦ if P m then some m else none ]
unfolding find_member
find_member-keep_if P pk [] d = refl
find_member-keep_if P pk (m ∷ ms) d =
    ground (arith, find_member-keep_if P pk ms d.1, find_member-absent pk ms, eq_iff m.pubkey pk)

lookups-includes :
    (members : Map Member) (t : String) (order : List String)
    → ((k : String) (m : Member) → Dict.get k members ≡ some m → m.pubkey ≡ k)
    → includes t (pubkeys (lookups members order)) ≡ true
    → includes t order ≡ true
unfolding lookups
lookups-includes members t [] keyed h = h
lookups-includes members t (k ∷ rest) keyed h = elim (Option-cases (Dict.get k members)) [
  | inl e ↦ ground (arith, lookups-includes members t rest keyed)
  | inr (m, e) ↦ ground (arith, lookups-includes members t rest keyed, keyed k m e)
]

lookups-Distinct :
    (members : Map Member) (order : List String)
    → ((k : String) (m : Member) → Dict.get k members ≡ some m → m.pubkey ≡ k)
    → Distinct order
    → Distinct (pubkeys (lookups members order))
unfolding lookups
lookups-Distinct members [] keyed d = tt
lookups-Distinct members (k ∷ rest) keyed d = elim (Option-cases (Dict.get k members)) [
  | inl e ↦ ground (arith, lookups-Distinct members rest keyed d.1)
  | inr (m, e) ↦ ground (
    arith,
    lookups-Distinct members rest keyed d.1,
    keyed k m e,
    lookups-includes members k rest keyed,
  )
]

find_member-lookups :
    (members : Map Member) (pk : String) (order : List String)
    → ((k : String) (m : Member) → Dict.get k members ≡ some m → m.pubkey ≡ k)
    → find_member pk (lookups members order)
      ≡ (if includes pk order then Dict.get pk members else none)
unfolding lookups find_member
find_member-lookups members pk [] keyed = refl
find_member-lookups members pk (k ∷ rest) keyed = elim (Option-cases (Dict.get k members)) [
  | inl e ↦ ground (arith, find_member-lookups members pk rest keyed, eq_iff k pk)
  | inr (m, e) ↦ ground (arith, find_member-lookups members pk rest keyed, keyed k m e, eq_iff k pk)
]

module _ {s : RoomState} (r : IsRoster s) (pk : String) where
  -- Turn order finds whoever the room has under a key, and has each key once.
  pub in_turn : find_member pk (members_in_order s) ≡ Dict.get pk s.members
  in_turn =
      rw
        (
          members_in_order-lookups s r.distinct,
          find_member-lookups s.members pk s.order r.keyed,
          r.listed pk,
        )
        (listed (Dict.get pk s.members))
    where
      listed : (o : Option Member) → (if (if is_none o then false else true) then o else none) ≡ o
      listed none = refl
      listed (some m) = refl

  pub members-Distinct : Distinct (pubkeys (members_in_order s))
  members-Distinct =
      rw (members_in_order-lookups s r.distinct)
        (lookups-Distinct s.members s.order r.keyed r.distinct)

  pub feeders-Distinct : Distinct (pubkeys (feeding_members s))
  feeders-Distinct =
      Distinct-keep_if (λ m. m.pubkey) is_feeder (members_in_order s) members-Distinct
