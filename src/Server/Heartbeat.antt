-- ===== src/Server/Heartbeat.antt =====
-- apps/server/src/heartbeat.ts: the pings that keep idle sockets open, and the hang-ups.
use spotjam.Prelude.{
  ℤ, pos, String, Bool, true, false, not, ◌||◌, ◌==◌, eq_iff, if◌then◌else◌, Bool-cases, List, [],
  ◌∷◌, ◌++◌, keep_if, includes, includes-append, includes-keep_ne, Distinct, append-nil,
  append_assoc, arith, ◌≡◌, ◌∙◌, refl, inl, inr,
}

abbrev pub heartbeat_period_ms : ℤ
heartbeat_period_ms = pos 30000

-- The clients of the server, those that answered, and a log of the pings and of the hang-ups.
pub record Heartbeat : Type 0 where
  pub clients : List String
  pub answered : List String
  pub pinged : List String
  pub terminated : List String

-- `answered.add` and `answered.delete`
abbrev pub mark_answered : String → List String → List String
mark_answered s answered = if includes s answered then answered else answered ++ s ∷ []

abbrev pub forget_answer : String → List String → List String
forget_answer s answered = keep_if (λ t. not (t == s)) answered

-- `watch`, of a socket that connects
unfoldable pub watch : Heartbeat → String → Heartbeat
watch h s = record h { clients = h.clients ++ s ∷ []; answered = mark_answered s h.answered }

-- The listener to a pong
unfoldable pub pong : Heartbeat → String → Heartbeat
pong h s = record h { answered = mark_answered s h.answered }

-- The loop's body: hang up, or ping.
unfoldable pub visit : Heartbeat → String → Heartbeat
visit h s =
    if includes s h.answered
    then record h { answered = forget_answer s h.answered; pinged = h.pinged ++ s ∷ [] }
    else record h { terminated = h.terminated ++ s ∷ [] }

unfoldable pub visit_all : Heartbeat → List String → Heartbeat
unfolding visit
visit_all h [] = h
visit_all h (s ∷ rest) = visit_all (visit h s) rest

-- A period has passed.
unfoldable pub beat : Heartbeat → Heartbeat
unfolding visit_all
beat h = visit_all h h.clients

-- Who has answered, once some were visited: nobody of them.
visit-answered :
    (h : Heartbeat) (s t : String)
    → includes t (visit h s).answered ≡ (if s == t then false else includes t h.answered)
unfolding visit
visit-answered h s t = elim (Bool-cases (includes s h.answered)) [
  | inl e ↦ rw e (includes-keep_ne s t h.answered)
  | inr e ↦ rw e (ground (arith, eq_iff s t))
]

visit-terminated :
    (h : Heartbeat) (s : String)
    → (visit h s).terminated ≡ h.terminated ++ (if includes s h.answered then [] else s ∷ [])
unfolding visit
visit-terminated h s = elim (Bool-cases (includes s h.answered)) [
  | inl e ↦ rw (e, append-nil h.terminated)
  | inr e ↦ rw e
]

-- Whom a round hangs up on, in order.
pub silent : List String → List String → List String
silent answered clients = keep_if (λ s. not (includes s answered)) clients

silent_same :
    (a b clients : List String)
    → ((t : String) → includes t clients ≡ true → includes t a ≡ includes t b)
    → silent a clients ≡ silent b clients
unfolding silent
silent_same a b [] h = refl
silent_same a b (c ∷ cs) h = ground (
  arith,
  silent_same a b cs (λ t there. h t (ground (arith, there))),
  h c (ground (arith, eq_iff c c)),
)

-- A round hangs up on the clients that have not answered since they were last pinged, in order, and
-- on no other, where no client is listed twice.
pub visit_all-terminated :
    (h : Heartbeat) (clients : List String)
    → Distinct clients
    → (visit_all h clients).terminated ≡ h.terminated ++ silent h.answered clients
unfolding visit_all silent
visit_all-terminated h [] d = rw (append-nil h.terminated)
visit_all-terminated h (s ∷ rest) d =
    let same =
      silent_same (visit h s).answered h.answered rest
        (λ t there. ground (arith, visit-answered h s t, eq_iff s t)) in
    visit_all-terminated (visit h s) rest d.1
    ∙ rw (same, visit-terminated h s, append_assoc) (with_first (includes s h.answered))
  where
    with_first :
        (b : Bool)
        → h.terminated ++ ((if b then [] else s ∷ []) ++ silent h.answered rest)
          ≡ h.terminated ++ (if not b then s ∷ silent h.answered rest else silent h.answered rest)
    with_first true = refl
    with_first false = refl

-- After some sockets were visited, none of them has answered, and the others are as they were.
visit_all-answered :
    (h : Heartbeat) (clients : List String) (t : String)
    → includes t (visit_all h clients).answered
      ≡ (if includes t clients then false else includes t h.answered)
unfolding visit_all
visit_all-answered h [] t = refl
visit_all-answered h (s ∷ rest) t =
    visit_all-answered (visit h s) rest t ∙ ground (arith, visit-answered h s t, eq_iff s t)

visit-clients : (h : Heartbeat) (s : String) → (visit h s).clients ≡ h.clients
unfolding visit
visit-clients h s = elim (Bool-cases (includes s h.answered)) [
  | inl e ↦ rw e refl
  | inr e ↦ rw e refl
]

visit_all-clients :
    (h : Heartbeat) (clients : List String) → (visit_all h clients).clients ≡ h.clients
unfolding visit_all
visit_all-clients h [] = refl
visit_all-clients h (s ∷ rest) = visit_all-clients (visit h s) rest ∙ visit-clients h s

includes-mark_answered :
    (s t : String) (answered : List String)
    → includes t (mark_answered s answered) ≡ (s == t) || includes t answered
includes-mark_answered s t answered = elim (Bool-cases (includes s answered)) [
  | inl e ↦ rw e (ground (arith, eq_iff s t))
  | inr e ↦ rw (e, includes-append) (ground (arith, eq_iff s t))
]

-- Pongs that arrive one after the other.
abbrev pub pongs : Heartbeat → List String → Heartbeat
pongs h [] = h
pongs h (s ∷ rest) = pongs (pong h s) rest

pongs-answered :
    (h : Heartbeat) (ss : List String) (t : String)
    → includes t (pongs h ss).answered ≡ includes t ss || includes t h.answered
unfolding pong
pongs-answered h [] t = refl
pongs-answered h (s ∷ rest) t =
    pongs-answered (pong h s) rest t ∙ ground (arith, includes-mark_answered s t h.answered)

pongs-clients :
    (h : Heartbeat) (ss : List String)
    → ((pongs h ss).clients ≡ h.clients) × ((pongs h ss).terminated ≡ h.terminated)
unfolding pong
pongs-clients h [] = (refl, refl)
pongs-clients h (s ∷ rest) = pongs-clients (pong h s) rest

-- Where no client is listed twice, a round that follows another, with some pongs in between, hangs
-- up exactly on the clients that sent none of these pongs, in order, whoever answered before the
-- earlier round.
pub beat-pongs-beat :
    (h : Heartbeat) (ss : List String)
    → Distinct h.clients
    → (beat (pongs (beat h) ss)).terminated
      ≡ (beat h).terminated ++ keep_if (λ t. not (includes t ss)) h.clients
unfolding beat silent
beat-pongs-beat h ss d =
    let once = visit_all h h.clients in
    let (listed, hung) = pongs-clients once ss in
    rw (listed, visit_all-clients h h.clients)
      (visit_all-terminated (pongs once ss) h.clients d
        ∙ rw
            (
              hung,
              silent_same (pongs once ss).answered ss h.clients (λ t there.
                  ground
                    (arith, there, pongs-answered once ss t, visit_all-answered h h.clients t)),
            )
            refl)
