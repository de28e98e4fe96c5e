-- ===== src/DmChannels/Lookup.antt =====
-- server/src/data/dm-channels.ts: a channel is found by its pair of wallets, in either order.
use sui_comabts.Prelude.{
  ℕ, ◌≡◌, refl, sym, ap, ◌∙◌, Bool, true, false, ◌||◌, not, [], ◌∷◌, none, some, arith, Text, units,
  ◌===◌, ===_refl, ===→≡, ltb, to_lower_case, starts_with, length, get, get-set, Bool-cases,
  Option-cases, inl, inr,
}
use sui_comabts.DmChannels.{
  DmChannelRow, DmChannels, canonical_pair, pair_key, RegisterChannelInput, already_registered,
  new_row, store_row, row_of, taken, register_channel, get_channel_for_pair,
}
use sui_comabts.DmChannels.Pairs.{pair_key_comm}

-- The ids that `registerChannel` takes.
abbrev pub is_channel_id : Text → Bool
is_channel_id id = not (not (starts_with id (units "0x")) || ltb (length id) 42)

-- The same wallet, in any case of its letters.
abbrev pub SameWallet : Text → Text → Type 0
SameWallet a b = to_lower_case a ≡ to_lower_case b

pair_key-same : (a b c d : Text) → SameWallet a c → SameWallet b d → pair_key a b ≡ pair_key c d
unfolding pair_key canonical_pair
pair_key-same a b c d e f = rw (e, f) refl

row_of-get :
    (id : Text) (s : DmChannels)
    → is_channel_id id ≡ true
    → row_of (some id) s ≡ get id s.channels_by_id
unfolding starts_with
row_of-get [] s e = absurd (ground (arith, e))
row_of-get (c ∷ id) s e = refl

-- A call without an error stored the row.
stored :
    (now : ℕ) (input : RegisterChannelInput) (s : DmChannels)
    → (register_channel now input s).1.error ≡ none
    → (is_channel_id input.channel_id ≡ true)
      × ((to_lower_case input.wallet_a === to_lower_case input.wallet_b) ≡ false)
      × ((register_channel now input s).0
          ≡ store_row (pair_key input.wallet_a input.wallet_b) (new_row now input) s)
unfolding register_channel
stored now input s e =
    elim (Bool-cases
      (not (starts_with input.channel_id (units "0x")) || ltb (length input.channel_id) 42)) [
        | inl p ↦ absurd (ground (arith, e, p))
        | inr p ↦
            elim (Bool-cases (to_lower_case input.wallet_a === to_lower_case input.wallet_b)) [
              | inl q ↦ absurd (ground (arith, e, p, q))
              | inr q ↦
                  elim (Option-cases (
                    taken input.channel_id
                      (get (pair_key input.wallet_a input.wallet_b) s.channel_by_pair) s)) [
                        | inr (row, t) ↦ absurd (ground (arith, e, p, q, t))
                        | inl t ↦ (rw p refl, q, rw (p, q, t) refl)
                      ]
            ]
      ]

lookup-stored :
    (key : Text) (row : DmChannelRow) (s : DmChannels)
    → is_channel_id row.channel_id ≡ true
    → row_of (get key (store_row key row s).channel_by_pair) (store_row key row s) ≡ some row
unfolding store_row
lookup-stored key row s e =
    rw (get-set key key row.channel_id s.channel_by_pair, ===_refl key)
      (row_of-get row.channel_id (store_row key row s) e
        ∙ (rw (get-set row.channel_id row.channel_id row s.channels_by_id, ===_refl row.channel_id)
            refl))

-- Another id for a pair whose channel is there.
refused_again :
    (now : ℕ) (input : RegisterChannelInput) (row : DmChannelRow) (s : DmChannels)
    → is_channel_id input.channel_id ≡ true
    → (to_lower_case input.wallet_a === to_lower_case input.wallet_b) ≡ false
    → taken input.channel_id (get (pair_key input.wallet_a input.wallet_b) s.channel_by_pair) s
      ≡ some row
    → register_channel now input s ≡ (s, record { row = some row; error = some already_registered })
unfolding register_channel
refused_again now input row s p q t = ground (arith, p, q, t)

indexed-stored :
    (key : Text) (row : DmChannelRow) (s : DmChannels)
    → get key (store_row key row s).channel_by_pair ≡ some row.channel_id
unfolding store_row
indexed-stored key row s =
    ground (arith, get-set key key row.channel_id s.channel_by_pair, ===_refl key)

taken-stored :
    (id key : Text) (row : DmChannelRow) (s : DmChannels)
    → is_channel_id row.channel_id ≡ true
    → (row.channel_id === id) ≡ false
    → taken id (get key (store_row key row s).channel_by_pair) (store_row key row s) ≡ some row
taken-stored id key row s e n = rw (indexed-stored key row s) (
    rw n (
      sym (ap (λ o. row_of o (store_row key row s)) (indexed-stored key row s))
      ∙ lookup-stored key row s e))

-- After a call of `registerChannel` that returns no error, for two wallets, in any case of their
-- letters: the pair is looked up, in either order, as the row of that call; and a later call for the
-- two wallets, in the other order and with another valid channel id, changes nothing and returns that
-- row with the error `already_registered`.
pub register-lookup :
    (now later : ℕ) (input : RegisterChannelInput) (a b id : Text) (s : DmChannels)
    → (register_channel now input s).1.error ≡ none
    → SameWallet a input.wallet_a
    → SameWallet b input.wallet_b
    → is_channel_id id ≡ true
    → (input.channel_id === id) ≡ false
    → let t = (register_channel now input s).0 in
      (get_channel_for_pair a b t ≡ some (new_row now input))
      × (get_channel_for_pair b a t ≡ some (new_row now input))
      × (register_channel later (record input { channel_id = id; wallet_a = b; wallet_b = a }) t
          ≡ (t, record { row = some (new_row now input); error = some already_registered }))
unfolding get_channel_for_pair new_row
register-lookup now later input a b id s e f g p n =
    let (valid, apart, is_stored) = stored now input s e in
    let row = new_row now input in
    let key = pair_key input.wallet_a input.wallet_b in
    let same : pair_key a b ≡ key = pair_key-same a b input.wallet_a input.wallet_b f g in
    let turned : pair_key b a ≡ key = pair_key_comm b a ∙ same in
    let found = lookup-stored key row s valid in
    rw is_stored (
      rw same found,
      rw turned found,
      refused_again later (record input { channel_id = id; wallet_a = b; wallet_b = a }) row
          (store_row key row s) p
          (ground (
            arith,
            f,
            g,
            apart,
            ===→≡ (to_lower_case b) (to_lower_case a),
            ===_refl (to_lower_case a),
          ))
          (rw turned (taken-stored id key row s valid n)),
    )
