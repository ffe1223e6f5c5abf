-- ===== src/Protocol/Envelope.antt =====
-- packages/protocol/src/envelope.ts: opening a signed envelope. The shape of keys and signatures is a
-- regular expression, and the signature is checked by a library over the canonical bytes: all three
-- are parameters. Which payloads have canonical bytes is `canonicalize` of canonical.ts.
use spotjam.Prelude.{
  ℤ, pos, negsuc, ◌-ℤ◌, ltb_ℤ, leb_ℤ, String, Bool, true, false, not, ◌&&◌, if◌then◌else◌, Option,
  none, some, ◌>>=◌,
}
use spotjam.Protocol.Value.{Value, Items, Fields, field, string_of}

pub record Envelope : Type 0 where
  pub payload : Value
  pub pubkey : String
  pub nonce : String
  pub timestamp : ℤ
  pub signature : String

pub data OpenFailure : Type 0 where
  malformed bad_signature stale_timestamp future_timestamp : OpenFailure

pub data OpenResult : Type 0 where
  opened : Envelope → OpenResult
  failed : OpenFailure → OpenResult

-- `REPLAY_WINDOW_MS`
abbrev pub replay_window_ms : ℤ
replay_window_ms = pos 60000

-- Where `canonicalize` does not throw: no infinite number, and nothing undefined.
unfoldable mutual
  pub has_encoding : Value → Bool
  has_encoding Value.undefined = false
  has_encoding Value.infinite = false
  has_encoding (Value.arr vs) = items_have vs
  has_encoding (Value.obj fs) = fields_have fs
  has_encoding v = true

  pub items_have : Items → Bool
  items_have Items.nil = true
  items_have (Items.cons v vs) = has_encoding v && items_have vs

  pub fields_have : Fields → Bool
  fields_have Fields.end = true
  fields_have (Fields.entry key v fs) = has_encoding v && fields_have fs

-- A value that is there.
abbrev pub present : Value → Option Value
present Value.undefined = none
present v = some v

-- `typeof value === "number" && Number.isSafeInteger(value)`
unfoldable pub safe_integer : Value → Option ℤ
safe_integer (Value.num n) =
    if leb_ℤ (negsuc 9007199254740990) n && leb_ℤ n (pos 9007199254740991) then some n else none
safe_integer v = none

-- `isEnvelope`, with what it found
unfoldable pub envelope_of : Value → Option Envelope
unfolding field string_of safe_integer
envelope_of value = do
  pubkey ← string_of (field "pubkey" value)
  nonce ← string_of (field "nonce" value)
  timestamp ← safe_integer (field "timestamp" value)
  signature ← string_of (field "signature" value)
  payload ← present (field "payload" value)
  some (record {
    payload = payload;
    pubkey = pubkey;
    nonce = nonce;
    timestamp = timestamp;
    signature = signature;
  })

module _ (is_public_key_hex is_signature_hex : String → Bool) (verify_bytes : Envelope → Bool) where
  -- `open` of a well-shaped envelope
  unfoldable pub open_envelope : Envelope → ℤ → ℤ → OpenResult
  open_envelope e now window_ms =
      if not (is_public_key_hex e.pubkey && is_signature_hex e.signature)
      then failed malformed
      else if ltb_ℤ window_ms (now -ℤ e.timestamp)
      then failed stale_timestamp
      else if ltb_ℤ (now -ℤ e.timestamp) (pos 0 -ℤ window_ms)
      then failed future_timestamp
      else if not (has_encoding e.payload)
      then failed malformed
      else if not (verify_bytes e)
      then failed bad_signature
      else opened e

  -- `open`
  unfoldable pub open_value : Value → ℤ → ℤ → OpenResult
  unfolding open_envelope envelope_of
  open_value value now window_ms = elim (envelope_of value) [
    | none ↦ failed malformed
    | some e ↦ open_envelope e now window_ms
  ]
