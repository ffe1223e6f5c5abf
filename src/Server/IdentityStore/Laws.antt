-- ===== src/Server/IdentityStore/Laws.antt =====
-- apps/server/src/identity-store.ts: the two indices of the store.
use spotjam.Prelude.{
  ℤ, String, Bool, true, false, ◌==◌, eq_iff, none, some, Map, arith, ◌≡◌, refl, ◌⊎◌, inl, inr,
  Bool-cases, Option-cases,
}
use spotjam.Prelude.Dict
use spotjam.Prelude.Dict.{get-put}
use spotjam.Server.IdentityStore.{
  IdentityRecord, IdentityStore, registered, refused, Refusal, username_taken, invalid_username,
  decide_registration, register, empty_store, is_anothers,
}

-- Whatever one index holds stands under its own key there, and is in the other index too.
abbrev pub IsIndexedBy :
    (IdentityRecord → String)
    → (IdentityRecord → String)
    → Map IdentityRecord
    → Map IdentityRecord
    → Type 0
IsIndexedBy key other index others =
    (k : String) (r : IdentityRecord)
    → Dict.get k index ≡ some r
    → (key r ≡ k) × (Dict.get (other r) others ≡ some r)

-- The two indices hold the same records, each under its own key and under its own name.
pub record IsIndexed (store : IdentityStore) : Type 0 where
  pub keyed : IsIndexedBy (λ r. r.pubkey) (λ r. r.normalized_username) store.by_pubkey store.by_name
  pub named : IsIndexedBy (λ r. r.normalized_username) (λ r. r.pubkey) store.by_name store.by_pubkey

pub empty_store-IsIndexed : IsIndexed empty_store
unfolding Dict.get
empty_store-IsIndexed = record { keyed = λ k r e. absurd (cc); named = λ n r e. absurd (cc) }

put-IsIndexedBy :
    (key other : IdentityRecord → String) (index others : Map IdentityRecord) (r : IdentityRecord)
    → IsIndexedBy key other index others
    → ((q : IdentityRecord) → Dict.get (other r) others ≡ some q → q ≡ r)
    → IsIndexedBy key other (Dict.put (key r) r index) (Dict.put (other r) r others)
put-IsIndexedBy key other index others r v free k q e = elim (Bool-cases (key r == k)) [
  | inl h ↦
      let same : q ≡ r = ground (arith, get-put (key r) k r index) in
      rw same (
        (eq_iff (key r) k).0 h,
        ground (arith, get-put (other r) (other r) r others, eq_iff (other r) (other r)),
      )
  | inr h ↦
      let (filed, found) = v k q (ground (arith, get-put (key r) k r index)) in
      (
        filed,
        elim (Bool-cases (other r == other q)) [
          | inl g ↦
              let same = free q (rw ((eq_iff (other r) (other q)).0 g) found) in
              ground (arith, get-put (other r) (other q) r others, same)
          | inr g ↦ ground (arith, get-put (other r) (other q) r others)
        ],
      )
]

file-IsIndexed :
    (store : IdentityStore) (r : IdentityRecord)
    → IsIndexed store
    → ((q : IdentityRecord) → Dict.get r.pubkey store.by_pubkey ≡ some q → q ≡ r)
    → ((q : IdentityRecord) → Dict.get r.normalized_username store.by_name ≡ some q → q ≡ r)
    → IsIndexed (record {
      by_pubkey = Dict.put r.pubkey r store.by_pubkey;
      by_name = Dict.put r.normalized_username r store.by_name;
    })
file-IsIndexed store r v free_key free_name = record {
  keyed =
      put-IsIndexedBy (λ q. q.pubkey) (λ q. q.normalized_username) store.by_pubkey store.by_name r
        v.keyed free_name;
  named =
      put-IsIndexedBy (λ q. q.normalized_username) (λ q. q.pubkey) store.by_name store.by_pubkey r
        v.named free_key;
}

nobody :
    (store : IdentityStore) (pubkey name : String)
    → IsIndexed store
    → is_anothers (Dict.get name store.by_name) pubkey ≡ false
    → Dict.get pubkey store.by_pubkey ≡ none
    → Dict.get name store.by_name ≡ none
nobody store pubkey name v f g = elim (Option-cases (Dict.get name store.by_name)) [
  | inl e ↦ e
  | inr (q, e) ↦
      let (_, found) = v.named name q e in absurd (ground (arith, eq_iff q.pubkey pubkey))
]

module _ (is_valid_username : String → Bool) (normalize_username : String → String) where
  -- What a key gets when it asks for a name: a refusal, the record that it owns, or a new one, under
  -- a name that nobody owns.
  pub record IsNew (store : IdentityStore) (pubkey username : String) (now : ℤ) (r : IdentityRecord)
      : Type 0 where
    pub unknown : Dict.get pubkey store.by_pubkey ≡ none
    pub free : Dict.get (normalize_username username) store.by_name ≡ none
    pub made : r ≡ record {
      pubkey = pubkey;
      username = username;
      normalized_username = normalize_username username;
      created_at_epoch_ms = now;
    }

  decide_cases :
      (store : IdentityStore) (pubkey username : String) (now : ℤ)
      → IsIndexed store
      → let d =
          decide_registration is_valid_username normalize_username pubkey username now
            (Dict.get pubkey store.by_pubkey)
            (Dict.get (normalize_username username) store.by_name) in
        ((why : Refusal) × (d ≡ refused why))
        ⊎ ((r : IdentityRecord) × (d ≡ registered r)
            × ((Dict.get pubkey store.by_pubkey ≡ some r)
                  × (r.normalized_username ≡ normalize_username username)
                ⊎ IsNew store pubkey username now r))
  unfolding decide_registration
  decide_cases store pubkey username now v =
      let name = normalize_username username in
      elim (Bool-cases (is_valid_username username)) [
        | inr e ↦ inl (invalid_username, rw (e, decide_registration))
        | inl e ↦ elim (Bool-cases (is_anothers (Dict.get name store.by_name) pubkey)) [
          | inl f ↦ inl (username_taken, rw (e, decide_registration, f))
          | inr f ↦ elim (Option-cases (Dict.get pubkey store.by_pubkey)) [
            | inr (r, g) ↦ elim (Bool-cases (r.normalized_username == name)) [
              | inl h ↦ inr (
                r,
                rw (e, decide_registration, f, g, h),
                inl (g, (eq_iff r.normalized_username name).0 h),
              )
              | inr h ↦ inl (username_taken, rw (e, decide_registration, f, g, h))
            ]
            | inl g ↦
                let made : IdentityRecord = record {
                  pubkey = pubkey;
                  username = username;
                  normalized_username = name;
                  created_at_epoch_ms = now;
                } in
                inr (
                  made,
                  rw (e, decide_registration, f, g),
                  inr (record { unknown = g; free = nobody store pubkey name v f g; made = refl }),
                )
          ]
        ]
      ]

  -- A registration keeps the two indices of a store in step: each record stands under its own key
  -- and under its own normalized name, and both indices hold the same.
  pub register-IsIndexed :
      (store : IdentityStore) (pubkey username : String) (now : ℤ)
      → IsIndexed store
      → IsIndexed (register is_valid_username normalize_username store pubkey username now).0
  unfolding register
  register-IsIndexed store pubkey username now v = elim (decide_cases store pubkey username now v) [
    | inl (why, e) ↦ rw (register, e) v
    | inr (r, e, inl (owned, same)) ↦
        let (mine, filed) = v.keyed pubkey r owned in
        rw (register, e) (file-IsIndexed store r v (λ q k. ground arith) (λ q k. ground arith))
    | inr (r, e, inr new) ↦
        let unknown = new.unknown in
        let free = new.free in
        let made = new.made in
        rw (register, e) (file-IsIndexed store r v (λ q k. ground arith) (λ q k. ground arith))
  ]

  -- With the indices in step, a key keeps the record, and so the name, that it has, and a name
  -- keeps its key, whoever registers what.
  pub register_keeps :
      (store : IdentityStore) (pubkey username : String) (now : ℤ) (k : String) (r : IdentityRecord)
      → IsIndexed store
      → Dict.get k store.by_pubkey ≡ some r
      → let after = (register is_valid_username normalize_username store pubkey username now).0 in
        (Dict.get k after.by_pubkey ≡ some r)
        × (Dict.get r.normalized_username after.by_name ≡ some r)
  unfolding register
  register_keeps store pubkey username now k r v e =
      let (mine, filed) = v.keyed k r e in
      elim (decide_cases store pubkey username now v) [
        | inl (why, d) ↦ rw (register, d) (e, filed)
        | inr (q, d, inl (owned, same)) ↦
            let (its, found) = v.keyed pubkey q owned in
            rw (register, d)
              (
                ground (arith, get-put q.pubkey k q store.by_pubkey, eq_iff q.pubkey k),
                ground (
                  arith,
                  get-put q.normalized_username r.normalized_username q store.by_name,
                  eq_iff q.normalized_username r.normalized_username,
                ),
              )
        | inr (q, d, inr new) ↦
            let unknown = new.unknown in
            let free = new.free in
            let made = new.made in
            rw (register, d)
              (
                ground (arith, get-put q.pubkey k q store.by_pubkey, eq_iff q.pubkey k),
                ground (
                  arith,
                  get-put q.normalized_username r.normalized_username q store.by_name,
                  eq_iff q.normalized_username r.normalized_username,
                ),
              )
      ]

  -- With the indices in step, a registration that is granted answers with a record of that key
  -- under that name, and both indices hold it from then on.
  pub register-registered :
      (store : IdentityStore) (pubkey username : String) (now : ℤ) (r : IdentityRecord)
      → IsIndexed store
      → (register is_valid_username normalize_username store pubkey username now).1 ≡ registered r
      → let after = (register is_valid_username normalize_username store pubkey username now).0 in
        (r.pubkey ≡ pubkey)
        × (r.normalized_username ≡ normalize_username username)
        × (Dict.get pubkey after.by_pubkey ≡ some r)
        × (Dict.get (normalize_username username) after.by_name ≡ some r)
  unfolding register
  register-registered store pubkey username now r v granted =
      elim (decide_cases store pubkey username now v) [
        | inl (why, d) ↦ absurd (ground (arith, d))
        | inr (q, d, which) ↦
            let same : q ≡ r = ground (arith, d) in
            let (its, name) = about q which in
            rw (register, d)
              (
                ground (arith, same),
                ground (arith, same),
                ground (arith, get-put q.pubkey pubkey q store.by_pubkey, eq_iff q.pubkey pubkey),
                ground (
                  arith,
                  get-put q.normalized_username (normalize_username username) q store.by_name,
                  eq_iff q.normalized_username (normalize_username username),
                ),
              )
      ]
    where
      about :
          (q : IdentityRecord)
          → ((Dict.get pubkey store.by_pubkey ≡ some q)
              × (q.normalized_username ≡ normalize_username username))
            ⊎ IsNew store pubkey username now q
          → (q.pubkey ≡ pubkey) × (q.normalized_username ≡ normalize_username username)
      about q (inl (owned, same)) = ((v.keyed pubkey q owned).0, same)
      about q (inr new) = let made = new.made in (ground arith, ground arith)

  register_owned :
      (store : IdentityStore) (pubkey username : String) (now : ℤ) (r : IdentityRecord)
      → is_valid_username username ≡ true
      → r.pubkey ≡ pubkey
      → r.normalized_username ≡ normalize_username username
      → Dict.get pubkey store.by_pubkey ≡ some r
      → Dict.get (normalize_username username) store.by_name ≡ some r
      → (register is_valid_username normalize_username store pubkey username now).1 ≡ registered r
  unfolding register decide_registration
  register_owned store pubkey username now r valid mine name by_key by_name =
      rw (register, decide_registration, valid, by_name, by_key)
        (ground (
          arith,
          eq_iff r.pubkey pubkey,
          eq_iff r.normalized_username (normalize_username username),
        ))

  -- With the indices in step, asking again for a name that was granted, at any time, is granted
  -- with the same record.
  pub register_twice :
      (store : IdentityStore) (pubkey username : String) (now later : ℤ) (r : IdentityRecord)
      → IsIndexed store
      → (register is_valid_username normalize_username store pubkey username now).1 ≡ registered r
      → let after = (register is_valid_username normalize_username store pubkey username now).0 in
        (register is_valid_username normalize_username after pubkey username later).1 ≡ registered r
  register_twice store pubkey username now later r v granted =
      let after = (register is_valid_username normalize_username store pubkey username now).0 in
      let (mine, name, by_key, by_name) =
        register-registered store pubkey username now r v granted in
      register_owned after pubkey username later r valid mine name by_key by_name
    where
      valid : is_valid_username username ≡ true
      valid = elim (Bool-cases (is_valid_username username)) [
        | inl e ↦ e
        | inr e ↦ absurd (unfold register decide_registration in ground arith)
      ]
