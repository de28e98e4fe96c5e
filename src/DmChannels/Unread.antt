-- ===== src/DmChannels/Unread.antt =====
-- server/src/data/dm-channels.ts: the unread counts, and the lists of a wallet.
use sui_comabts.Prelude.{
  ℕ, ◌+◌, ◌||◌, ◌&&◌, not, List, [], ◌∷◌, Option, none, some, Text, ◌===◌, ltb, if◌then◌else◌,
  or_else, to_lower_case, Map, get, set,
}
use sui_comabts.DmChannels.{DmChannelRow, UnreadRow, DmChannels, unread_key}

-- `listChannelsForWallet`: the stable sort by the last activity, the latest first.
abbrev pub active_at : DmChannelRow → ℕ
active_at r = or_else r.last_message_at r.created_at

abbrev pub insert_latest : DmChannelRow → List DmChannelRow → List DmChannelRow
insert_latest r [] = r ∷ []
insert_latest r (x ∷ xs) =
    let rest = insert_latest r xs in
    if ltb (active_at r) (active_at x) then x ∷ rest else r ∷ x ∷ xs

abbrev pub latest_first : List DmChannelRow → List DmChannelRow
latest_first [] = []
latest_first (x ∷ xs) = insert_latest x (latest_first xs)

unfoldable pub channels_of : Text → Map DmChannelRow → List DmChannelRow
channels_of lower [] = []
channels_of lower ((_, row) ∷ m) =
    let rest = channels_of lower m in
    if (row.participant_a === lower) || (row.participant_b === lower) then row ∷ rest else rest

unfoldable pub list_channels_for_wallet : Text → DmChannels → List DmChannelRow
list_channels_for_wallet wallet s =
    latest_first (channels_of (to_lower_case wallet) s.channels_by_id)

abbrev pub count_of : Option UnreadRow → ℕ
count_of none = 0
count_of (some r) = r.unread_count

unfoldable pub get_unread : Text → Text → DmChannels → ℕ
get_unread id recipient s =
    count_of (get (unread_key id (to_lower_case recipient)) s.unread_by_channel_recipient)

unfoldable pub total_unread : Text → Map UnreadRow → ℕ
total_unread lower [] = 0
total_unread lower ((_, row) ∷ m) =
    (if row.recipient === lower then row.unread_count else 0) + total_unread lower m

unfoldable pub get_total_unread_for_wallet : Text → DmChannels → ℕ
get_total_unread_for_wallet wallet s =
    total_unread (to_lower_case wallet) s.unread_by_channel_recipient

-- `BumpUnreadResult`
pub record BumpUnreadResult : Type 0 where
  pub unread_count : ℕ
  pub channel : DmChannelRow

abbrev pub set_unread : Text → Text → ℕ → ℕ → DmChannels → DmChannels
set_unread id lower count now s = record s {
  unread_by_channel_recipient =
      set (unread_key id lower)
        (record { channel_id = id; recipient = lower; unread_count = count; updated_at = now })
        s.unread_by_channel_recipient;
}

abbrev pub bump_member :
    ℕ → Text → Text → DmChannelRow → DmChannels → DmChannels × Option BumpUnreadResult
bump_member now id lower channel s =
    let count = count_of (get (unread_key id lower) s.unread_by_channel_recipient) + 1 in
    let stamped = record channel { last_message_at = some now } in
    (
      record (set_unread id lower count now s) { channels_by_id = set id stamped s.channels_by_id },
      some (record { unread_count = count; channel = stamped }),
    )

abbrev pub bump_channel :
    ℕ → Text → Text → Option DmChannelRow → DmChannels → DmChannels × Option BumpUnreadResult
bump_channel now id lower none s = (s, none)
bump_channel now id lower (some channel) s =
    if not (lower === channel.participant_a) && not (lower === channel.participant_b)
    then (s, none)
    else bump_member now id lower channel s

unfoldable pub bump_unread : ℕ → Text → Text → DmChannels → DmChannels × Option BumpUnreadResult
bump_unread now id recipient s =
    bump_channel now id (to_lower_case recipient) (get id s.channels_by_id) s

unfoldable pub clear_unread : ℕ → Text → Text → DmChannels → DmChannels
clear_unread now id recipient s = set_unread id (to_lower_case recipient) 0 now s
