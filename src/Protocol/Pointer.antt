-- ===== src/Protocol/Pointer.antt =====
-- packages/protocol/src/pointer.ts: where a pointer stands at an instant, and one step of the clock.
pub mod Laws
use spotjam.Prelude.{
  ℤ, pos, ◌+ℤ◌, ◌-ℤ◌, ltb_ℤ, leb_ℤ, max_ℤ, min_ℤ, if◌then◌else◌, is_none, Option, none, some, false,
  ◌||◌,
}
use spotjam.Protocol.Types.{PlaybackPointer, SessionEntry, null_pointer}

-- `positionAt`
unfoldable pub position_at : PlaybackPointer → ℤ → ℤ
position_at p now =
    if is_none p.item_id
    then pos 0
    else let raw = if p.is_paused then p.paused_at_offset_ms else now -ℤ p.started_at_epoch_ms in
      let floored = max_ℤ (pos 0) raw in
      if ltb_ℤ (pos 0) p.duration_ms then min_ℤ floored p.duration_ms else floored

-- `endsAt`
unfoldable pub ends_at : PlaybackPointer → Option ℤ
ends_at p =
    if is_none p.item_id || p.is_paused then none else some (p.started_at_epoch_ms +ℤ p.duration_ms)

abbrev pub pointer_at : SessionEntry → ℤ → PlaybackPointer
pointer_at next end = record {
  item_id = some next.item.id;
  owner_pubkey = some next.owner_pubkey;
  uri = some next.item.uri;
  started_at_epoch_ms = end;
  is_paused = false;
  paused_at_offset_ms = pos 0;
  duration_ms = next.item.duration_ms;
}

-- The pointer that follows one which ran out at `end`.
abbrev pub follow : Option SessionEntry → ℤ → PlaybackPointer
follow none end = null_pointer
follow (some next) end = pointer_at next end

-- `settleOnce`
unfoldable pub settle_once : PlaybackPointer → Option SessionEntry → ℤ → PlaybackPointer
unfolding ends_at
settle_once p next now = elim (ends_at p) [
  | none ↦ p
  | some end ↦ if ltb_ℤ now end then p else follow next end
]
