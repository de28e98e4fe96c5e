-- ===== src/Presence/Examples.antt =====
-- A player who goes quiet.
use sui_comabts.Prelude.{
  ℕ, ◌-◌, ◌≡◌, ◌≢◌, not, List, [], ◌∷◌, none, some, Text, units, ltb, ◌===◌, any, get, passing,
}
use sui_comabts.Characters.{no_characters}
use sui_comabts.Presence.{
  PresenceRow, marketplace, idle, no_presence, UpsertInput, keeps, sweep_stale_presence,
}
use sui_comabts.Presence.Status.{HasStatus}
use sui_comabts.Presence.Rows.{Inv, Call, upserts, beats, run, any_row, presence_lem}

abbrev ann : Text
ann = units "0xa"

abbrev enters : UpsertInput
enters = record {
  wallet_address = ann;
  character_name = none;
  level = none;
  rating = none;
  room = some marketplace;
  fight_id = keeps;
}

abbrev visit : List (ℕ × Call)
visit = (1000, upserts enters no_characters) ∷ (21000, beats ann no_characters) ∷ []

presence_lem_example :
    Inv (run no_presence visit)
    × ((r : PresenceRow)
        → get ann (run no_presence visit).presence_by_wallet ≡ some r
        → r.status ≢ idle)
    × (get ann (sweep_stale_presence 90000 (run no_presence visit)).0.presence_by_wallet
        ≡ passing
            (λ r. not (ltb 60000 (90000 - r.last_seen_at)))
            (get ann (run no_presence visit).presence_by_wallet))
    × (any (λ x. x === ann) (sweep_stale_presence 90000 (run no_presence visit)).1
        ≡ any_row
            (λ r. ltb 60000 (90000 - r.last_seen_at))
            (get ann (run no_presence visit).presence_by_wallet))
    × ((r : PresenceRow)
        → get ann (run no_presence visit).presence_by_wallet ≡ some r
        → HasStatus r)
presence_lem_example = presence_lem visit 90000 ann
