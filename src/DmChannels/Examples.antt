-- ===== src/DmChannels/Examples.antt =====
-- Channels of three wallets.
use sui_comabts.Prelude.{
  ℕ, ◌≡◌, refl, List, [], ◌∷◌, Option, none, some, Text, Text-discrete, units, to_lower_case,
  starts_with, get, set,
}
use sui_comabts.DmChannels.{
  DmChannelRow, DmChannels, no_channels, before, canonical_pair, pair_key, unread_key,
  RegisterChannelInput, already_registered, new_row, store_row, register_channel,
  get_channel_for_pair,
}
use sui_comabts.DmChannels.Lookup.{register-lookup}
use sui_comabts.DmChannels.Unread.{get_unread, bump_unread, clear_unread}
use sui_comabts.DmChannels.Counts.{Call, bumps, clears, step, run, tally, get_unread-tally}

abbrev ann : Text
ann = units "0xA"

abbrev ben : Text
ben = units "0xb"

abbrev eve : Text
eve = units "0xe"

abbrev first_id : Text
first_id = units "0x0000000000000000000000000000000000000001"

abbrev second_id : Text
second_id = units "0x0000000000000000000000000000000000000002"

abbrev asks : Text → Text → Text → RegisterChannelInput
asks id a b = record {
  channel_id = id;
  wallet_a = a;
  wallet_b = b;
  member_cap_a = none;
  member_cap_b = none;
  encrypted_key_b64 = none;
  created_by = a;
}

abbrev opened : DmChannels
opened = (register_channel 5 (asks first_id ann ben) no_channels).0

register-lookup_example :
    (get_channel_for_pair (units "0xa") ben opened ≡ some (new_row 5 (asks first_id ann ben)))
    × (get_channel_for_pair ben (units "0xa") opened ≡ some (new_row 5 (asks first_id ann ben)))
    × (register_channel 9 (asks second_id ben (units "0xa")) opened ≡ (
      opened,
      record { row = some (new_row 5 (asks first_id ann ben)); error = some already_registered },
    ))
unfolding register_channel starts_with Text-discrete to_lower_case get no_channels store_row set
    pair_key canonical_pair before new_row
register-lookup_example =
    register-lookup 5 9 (asks first_id ann ben) (units "0xa") ben second_id no_channels refl refl
      refl refl refl

abbrev chat : List (ℕ × Call)
chat =
    (10, bumps first_id ben)
    ∷ (20, clears first_id ben)
    ∷ (30, bumps first_id ben)
    ∷ (40, bumps first_id eve)
    ∷ (50, bumps first_id ben)
    ∷ []

get_unread-tally_example :
    get_unread first_id ben (run opened chat)
    ≡ tally (unread_key first_id ben) opened (get_unread first_id ben opened) chat
unfolding to_lower_case
get_unread-tally_example = get_unread-tally first_id ben opened chat

chat_test : get_unread first_id ben (run opened chat) ≡ 2
unfolding get_unread run step bump_unread clear_unread register_channel store_row new_row
    canonical_pair pair_key unread_key before no_channels Text-discrete get set to_lower_case
    starts_with
chat_test = refl

-- A third wallet registers the channel's id for itself and one of the two: the lookup of the first
-- pair then gives a row with the third wallet in it.
abbrev taken_over : DmChannels
taken_over = (register_channel 9 (asks first_id eve ben) opened).0

participants : Option DmChannelRow → List Text
participants none = []
participants (some row) = row.participant_a ∷ row.participant_b ∷ []

taken_over_test : participants (get_channel_for_pair ann ben taken_over) ≡ ben ∷ eve ∷ []
unfolding participants get_channel_for_pair register_channel store_row new_row canonical_pair
    pair_key before no_channels Text-discrete get set to_lower_case starts_with
taken_over_test = refl
