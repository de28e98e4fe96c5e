-- ===== src/DmChannels/Counts.antt =====
-- server/src/data/dm-channels.ts: an unread count is the number of messages since it was last cleared.
use sui_comabts.Prelude.{
  ℕ, ◌+◌, ◌≡◌, refl, ap, ◌∙◌, Bool, false, ◌&&◌, ◌||◌, List, [], ◌∷◌, Option, none, some, arith,
  Text, ◌===◌, ===→≡, if◌then◌else◌, to_lower_case, get, get-set, Bool-cases, Option-cases, inl,
  inr,
}
use sui_comabts.DmChannels.{DmChannelRow, DmChannels, unread_key}
use sui_comabts.DmChannels.Unread.{
  count_of, get_unread, bump_channel, bump_unread, set_unread, clear_unread,
}

-- A message for a recipient in a channel, and the recipient opens the panel; each with its clock.
pub data Call : Type 0 where
  bumps : Text → Text → Call
  clears : Text → Text → Call

unfoldable pub step : DmChannels → ℕ × Call → DmChannels
step s (now, bumps id recipient) = (bump_unread now id recipient s).0
step s (now, clears id recipient) = clear_unread now id recipient s

unfoldable pub run : DmChannels → List (ℕ × Call) → DmChannels
run s [] = s
run s (c ∷ cs) = run (step s c) cs

-- The channel is there, and the wallet is one of its two participants.
abbrev pub member : Text → Option DmChannelRow → Bool
member lower none = false
member lower (some row) = (lower === row.participant_a) || (lower === row.participant_b)

unfoldable pub is_member : Text → Text → DmChannels → Bool
is_member id recipient s = member (to_lower_case recipient) (get id s.channels_by_id)

-- The description: one more for each message to a member under the key, and zero at a clear of it.
unfoldable pub tally : Text → DmChannels → ℕ → List (ℕ × Call) → ℕ
tally key s n [] = n
tally key s n ((now, bumps id recipient) ∷ cs) =
    tally key s
      (if is_member id recipient s && (unread_key id (to_lower_case recipient) === key)
        then n + 1
        else n)
      cs
tally key s n ((now, clears id recipient) ∷ cs) =
    tally key s (if unread_key id (to_lower_case recipient) === key then 0 else n) cs

count_at : Text → DmChannels → ℕ
count_at key s = count_of (get key s.unread_by_channel_recipient)

-- The channels of two states have the same participants.
abbrev SameMembers : DmChannels → DmChannels → Type 0
SameMembers s t =
    (id lower : Text)
    → member lower (get id t.channels_by_id) ≡ member lower (get id s.channels_by_id)

bump-SameMembers :
    (now : ℕ) (id recipient : Text) (s : DmChannels)
    → SameMembers s (bump_unread now id recipient s).0
unfolding bump_unread
bump-SameMembers now id recipient s j lower = elim (Option-cases (get id s.channels_by_id)) [
  | inl e ↦ rw e refl
  | inr (row, e) ↦ rw e (
      ground (
        arith,
        e,
        ===→≡ id j,
        get-set id j (record row { last_message_at = some now }) s.channels_by_id,
      ))
]

count-set_unread :
    (id lower key : Text) (n now : ℕ) (s : DmChannels)
    → count_at key (set_unread id lower n now s)
      ≡ (if unread_key id lower === key then n else count_at key s)
unfolding count_at
count-set_unread id lower key n now s = ground (
  arith,
  get-set (unread_key id lower) key
      (record { channel_id = id; recipient = lower; unread_count = n; updated_at = now })
      s.unread_by_channel_recipient,
)

member_bump-count :
    (now : ℕ) (id lower key : Text) (row : DmChannelRow) (s : DmChannels)
    → count_at key (bump_channel now id lower (some row) s).0 ≡ (
        if member lower (some row) && (unread_key id lower === key)
        then count_at key s + 1
        else count_at key s)
unfolding count_at
member_bump-count now id lower key row s = elim (Bool-cases (member lower (some row))) [
  | inr e ↦ ground (arith, e)
  | inl e ↦ ground (
    arith,
    e,
    ===→≡ (unread_key id lower) key,
    count-set_unread id lower key
        (count_of (get (unread_key id lower) s.unread_by_channel_recipient) + 1) now s,
  )
]

bump-count :
    (now : ℕ) (id recipient key : Text) (s : DmChannels)
    → count_at key (bump_unread now id recipient s).0 ≡ (
        if is_member id recipient s && (unread_key id (to_lower_case recipient) === key)
        then count_at key s + 1
        else count_at key s)
unfolding bump_unread is_member
bump-count now id recipient key s = elim (Option-cases (get id s.channels_by_id)) [
  | inl e ↦ rw e refl
  | inr (row, e) ↦ rw e (member_bump-count now id (to_lower_case recipient) key row s)
]

-- Membership, and so the description, only depends on the participants.
tally-same :
    (key : Text) (s t : DmChannels) (cs : List (ℕ × Call)) (n : ℕ)
    → SameMembers s t
    → tally key t n cs ≡ tally key s n cs
unfolding tally is_member
tally-same key s t [] n h = refl
tally-same key s t ((now, bumps id recipient) ∷ cs) n h =
    rw (h id (to_lower_case recipient)) (tally-same key s t cs _ h)
tally-same key s t ((now, clears id recipient) ∷ cs) n h = tally-same key s t cs _ h

run-tally :
    (key : Text) (s : DmChannels) (cs : List (ℕ × Call))
    → count_at key (run s cs) ≡ tally key s (count_at key s) cs
unfolding run step tally clear_unread
run-tally key s [] = refl
run-tally key s ((now, bumps id recipient) ∷ cs) =
    run-tally key (bump_unread now id recipient s).0 cs
    ∙ tally-same key s (bump_unread now id recipient s).0 cs _ (bump-SameMembers now id recipient s)
    ∙ ap (λ n. tally key s n cs) (bump-count now id recipient key s)
run-tally key s ((now, clears id recipient) ∷ cs) =
    run-tally key (clear_unread now id recipient s) cs
    ∙ tally-same key s (clear_unread now id recipient s) cs _ (λ j lower. refl)
    ∙ ap (λ n. tally key s n cs) (count-set_unread id (to_lower_case recipient) key 0 now s)

-- From any state, after any history of messages and opened panels, in any channels and for any
-- wallets, `getUnread` is what one would count by hand under the recipient's key: the count at the
-- start, one more for each message to a participant of its channel, and zero at each opened panel.
-- Other messages are not counted.
pub get_unread-tally :
    (id recipient : Text) (s : DmChannels) (cs : List (ℕ × Call))
    → get_unread id recipient (run s cs)
      ≡ tally (unread_key id (to_lower_case recipient)) s (get_unread id recipient s) cs
unfolding get_unread count_at
get_unread-tally id recipient s cs = run-tally (unread_key id (to_lower_case recipient)) s cs
