-- ===== src/DmChannels.antt =====
-- server/src/data/dm-channels.ts: the direct-message channels in memory, by id and by the unordered
-- pair of wallets, with the unread counts. The clock is an argument; what is written to the database
-- afterwards is left out.
pub mod Pairs
pub mod Lookup
pub mod Unread
pub mod Counts
mod Examples
use sui_comabts.Prelude.{
  ℕ, ◌+◌, Bool, true, false, ◌||◌, ◌&&◌, not, List, [], ◌∷◌, ◌++◌, Option, none, some, Text, units,
  ◌===◌, ltb, ◌==◌, if◌then◌else◌, is_some, or_else, length, to_lower_case, starts_with, Map, get,
  set,
}

pub record DmChannelRow : Type 0 where
  pub channel_id : Text
  pub participant_a : Text
  pub participant_b : Text
  pub member_cap_a : Option Text
  pub member_cap_b : Option Text
  pub encrypted_key_b64 : Option Text
  pub created_by : Text
  pub created_at : ℕ
  pub last_message_at : Option ℕ

pub record UnreadRow : Type 0 where
  pub channel_id : Text
  pub recipient : Text
  pub unread_count : ℕ
  pub updated_at : ℕ

pub record DmChannels : Type 0 where
  pub channels_by_id : Map DmChannelRow
  pub channel_by_pair : Map Text
  pub unread_by_channel_recipient : Map UnreadRow

unfoldable pub no_channels : DmChannels
no_channels = record { channels_by_id = []; channel_by_pair = []; unread_by_channel_recipient = [] }

-- `a < b` on strings: by the first code unit that differs.
unfoldable pub before : Text → Text → Bool
before [] [] = false
before [] (d ∷ t) = true
before (c ∷ s) [] = false
before (c ∷ s) (d ∷ t) = let rest = before s t in if c == d then rest else ltb c d

unfoldable pub canonical_pair : Text → Text → Text × Text
canonical_pair a b =
    let lower_a = to_lower_case a in
    let lower_b = to_lower_case b in
    if before lower_a lower_b then (lower_a, lower_b) else (lower_b, lower_a)

unfoldable pub is_canonical_pair : Text → Text → Bool
is_canonical_pair a b =
    before (to_lower_case a) (to_lower_case b) && (to_lower_case a === a) && (to_lower_case b === b)

-- `${c.a}|${c.b}`
abbrev pub joined : Text → Text → Text
joined a b = a ++ units "|" ++ b

unfoldable pub pair_key : Text → Text → Text
pair_key a b = let c = canonical_pair a b in joined c.0 c.1

unfoldable pub unread_key : Text → Text → Text
unread_key channel_id recipient = joined channel_id (to_lower_case recipient)

-- The id of a plaintext channel, with sha256 in hexadecimal as an argument.
unfoldable pub synthetic_channel_id_for_pair : (Text → Text) → Text → Text → Text
synthetic_channel_id_for_pair sha256 a b = units "0x" ++ sha256 (pair_key a b)

pub record RegisterChannelInput : Type 0 where
  pub channel_id : Text
  pub wallet_a : Text
  pub wallet_b : Text
  pub member_cap_a : Option Text
  pub member_cap_b : Option Text
  pub encrypted_key_b64 : Option Text
  pub created_by : Text

pub data RegisterError : Type 0 where
  already_registered self_pair invalid_input : RegisterError

pub record RegisterChannelResult : Type 0 where
  pub row : Option DmChannelRow
  pub error : Option RegisterError

unfoldable pub new_row : ℕ → RegisterChannelInput → DmChannelRow
new_row now input =
    let c = canonical_pair input.wallet_a input.wallet_b in
    record {
      channel_id = input.channel_id;
      participant_a = c.0;
      participant_b = c.1;
      member_cap_a = input.member_cap_a;
      member_cap_b = input.member_cap_b;
      encrypted_key_b64 = input.encrypted_key_b64;
      created_by = to_lower_case input.created_by;
      created_at = now;
      last_message_at = none;
    }

-- A new row in both maps.
unfoldable pub store_row : Text → DmChannelRow → DmChannels → DmChannels
store_row key row s = record s {
  channels_by_id = set row.channel_id row s.channels_by_id;
  channel_by_pair = set key row.channel_id s.channel_by_pair;
}

-- The row of an id, which must not be empty.
abbrev pub row_of : Option Text → DmChannels → Option DmChannelRow
row_of none s = none
row_of (some []) s = none
row_of (some (c ∷ id)) s = get (c ∷ id) s.channels_by_id

-- The row that another channel of the pair has already.
abbrev pub taken : Text → Option Text → DmChannels → Option DmChannelRow
taken id none s = none
taken id (some existing) s = if existing === id then none else row_of (some existing) s

abbrev pub register_unless :
    Option DmChannelRow → ℕ → RegisterChannelInput → DmChannels → DmChannels × RegisterChannelResult
register_unless (some row) now input s =
    (s, record { row = some row; error = some already_registered })
register_unless none now input s = (
  store_row (pair_key input.wallet_a input.wallet_b) (new_row now input) s,
  record { row = some (new_row now input); error = none },
)

unfoldable pub register_channel :
    ℕ → RegisterChannelInput → DmChannels → DmChannels × RegisterChannelResult
register_channel now input s =
    if not (starts_with input.channel_id (units "0x")) || ltb (length input.channel_id) 42
    then (s, record { row = none; error = some invalid_input })
    else if to_lower_case input.wallet_a === to_lower_case input.wallet_b
    then (s, record { row = none; error = some self_pair })
    else register_unless
        (taken input.channel_id (get (pair_key input.wallet_a input.wallet_b) s.channel_by_pair) s)
        now input s

unfoldable pub get_channel_by_id : Text → DmChannels → Option DmChannelRow
get_channel_by_id id s = get id s.channels_by_id

unfoldable pub get_channel_for_pair : Text → Text → DmChannels → Option DmChannelRow
get_channel_for_pair a b s = row_of (get (pair_key a b) s.channel_by_pair) s

-- `GetOrCreateSyntheticResult`, or the error that is thrown.
pub data Synthetic : Type 0 where
  gives : DmChannelRow → Bool → Synthetic
  throws : Option RegisterError → Synthetic

abbrev pub created_or_throws : Option DmChannelRow → Option RegisterError → Synthetic
created_or_throws none e = throws e
created_or_throws (some row) e = gives row true

abbrev pub create_unless :
    Option DmChannelRow → ℕ → RegisterChannelInput → DmChannels → DmChannels × Synthetic
create_unless (some row) now input s = (s, gives row false)
create_unless none now input s =
    let r = register_channel now input s in (r.0, created_or_throws r.1.row r.1.error)

unfoldable pub get_or_create_synthetic_channel :
    (Text → Text) → ℕ → Text → Text → Text → DmChannels → DmChannels × Synthetic
get_or_create_synthetic_channel sha256 now a b created_by s =
    create_unless (get_channel_for_pair a b s) now
      (record {
        channel_id = synthetic_channel_id_for_pair sha256 a b;
        wallet_a = a;
        wallet_b = b;
        member_cap_a = none;
        member_cap_b = none;
        encrypted_key_b64 = none;
        created_by = created_by;
      })
      s
