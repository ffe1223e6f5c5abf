-- ===== src/Server/IdentityStore.antt =====
-- apps/server/src/identity-store.ts: which username belongs to which key. `isValidUsername` and
-- `normalizeUsername` rest on the regular expressions and the case folding of the runtime, and are
-- parameters.
pub mod Laws
mod Tests
use spotjam.Prelude.{
  ℤ, String, Bool, true, false, not, ◌==◌, if◌then◌else◌, Option, none, some, List, [], Map,
}
use spotjam.Prelude.Dict

-- packages/protocol/src/registration.ts
pub record IdentityRecord : Type 0 where
  pub pubkey : String
  pub username : String
  pub normalized_username : String
  pub created_at_epoch_ms : ℤ

pub data Refusal : Type 0 where
  username_taken invalid_username : Refusal

-- `RegisterResult`
pub data RegisterResult : Type 0 where
  registered : IdentityRecord → RegisterResult
  refused : Refusal → RegisterResult

-- `MemoryIdentityStore`
pub record IdentityStore : Type 0 where
  pub by_pubkey : Map IdentityRecord
  pub by_name : Map IdentityRecord

abbrev pub empty_store : IdentityStore
empty_store = record { by_pubkey = []; by_name = [] }

-- `existingForName !== null && existingForName.pubkey !== pubkey`
abbrev pub is_anothers : Option IdentityRecord → String → Bool
is_anothers none pubkey = false
is_anothers (some existing) pubkey = not (existing.pubkey == pubkey)

-- `decideRegistration` for a key, by what it owns.
abbrev pub decide_for_key : Option IdentityRecord → String → String → String → ℤ → RegisterResult
decide_for_key none pubkey username normalized now = registered (record {
  pubkey = pubkey;
  username = username;
  normalized_username = normalized;
  created_at_epoch_ms = now;
})
decide_for_key (some existing) pubkey username normalized now =
    if existing.normalized_username == normalized
    then registered existing
    else refused username_taken

module _ (is_valid_username : String → Bool) (normalize_username : String → String) where
  -- `decideRegistration`
  unfoldable pub decide_registration :
      String → String → ℤ → Option IdentityRecord → Option IdentityRecord → RegisterResult
  decide_registration pubkey username now existing_for_pubkey existing_for_name =
      if not (is_valid_username username)
      then refused invalid_username
      else if is_anothers existing_for_name pubkey
      then refused username_taken
      else decide_for_key existing_for_pubkey pubkey username (normalize_username username) now

  -- `lookupByPubkey`
  abbrev pub lookup_by_pubkey : IdentityStore → String → Option IdentityRecord
  lookup_by_pubkey store pubkey = Dict.get pubkey store.by_pubkey

  -- `lookupByUsername`
  abbrev pub lookup_by_username : IdentityStore → String → Option IdentityRecord
  lookup_by_username store normalized = Dict.get normalized store.by_name

  -- What `register` does with a decision.
  abbrev pub file : IdentityStore → RegisterResult → IdentityStore × RegisterResult
  file store (refused why) = (store, refused why)
  file store (registered r) = (
    record {
      by_pubkey = Dict.put r.pubkey r store.by_pubkey;
      by_name = Dict.put r.normalized_username r store.by_name;
    },
    registered r,
  )

  -- `register`
  unfoldable pub register : IdentityStore → String → String → ℤ → IdentityStore × RegisterResult
  unfolding decide_registration
  register store pubkey username now = file store (
      decide_registration pubkey username now (lookup_by_pubkey store pubkey)
        (lookup_by_username store (normalize_username username)))
