-- ===== src/FightRoom/Submit.antt =====
-- server/src/ws/fight-room.ts: what a submitted action does, in every case.
use sui_comabts.Prelude.{
  ℕ, ◌≡◌, ◌≢◌, ◌⊎◌, Option, ◌↔◌, inl, inr, refl, true, false, ◌&&◌, ◌||◌, [], ◌∷◌, ◌++◌, none, some,
  arith, Text, ◌===◌, is_some, get, set, Bool-cases, Option-cases,
}
use sui_comabts.Combat.Zones.{
  OffhandType, shield, dual_wield, empty_offhand, TurnAction, validate_turn_action,
}
use sui_comabts.Combat.Stats.{Item, EquipmentSlots, offhand_of_label, get_offhand_type}
use sui_comabts.Combat.Turn.{resolve_turn}
use sui_comabts.FightRoom.{
  FightState, FightStatus, active, waiting, finished, is_active, Luck, SubmitError,
  submit_turn_action, record_action, equipment_of, resolve_fight_turn, finish_fight, stop_clock,
}

-- The offhand of an item, or of none: its label decides, and without one its type, where 2 is a shield
-- and 1 a weapon.
abbrev pub OffhandOf : Option Item → OffhandType → Type 0
OffhandOf none o = o ≡ empty_offhand
OffhandOf (some i) o =
    ((o ≡ shield)
      ↔ ((i.offhand_type ≡ some shield) ⊎ ((i.offhand_type ≢ some dual_wield) × (i.item_type ≡ 2))))
    × ((o ≡ dual_wield) ↔ (
        (i.offhand_type ≡ some dual_wield) ⊎ ((i.offhand_type ≢ some shield) × (i.item_type ≡ 1))))

offhand_of_label-OffhandOf :
    (l : Option OffhandType) (i : Item)
    → i.offhand_type ≡ l
    → OffhandOf (some i) (offhand_of_label l i.item_type)
offhand_of_label-OffhandOf none i e = ground (arith, e)
offhand_of_label-OffhandOf (some shield) i e = ground (arith, e)
offhand_of_label-OffhandOf (some dual_wield) i e = ground (arith, e)
offhand_of_label-OffhandOf (some empty_offhand) i e = ground (arith, e)

get_offhand_type-OffhandOf : (e : EquipmentSlots) → OffhandOf e.offhand (get_offhand_type e)
unfolding get_offhand_type
get_offhand_type-OffhandOf e = elim (Option-cases e.offhand) [
  | inl q ↦ rw q refl
  | inr (i, q) ↦ rw q (offhand_of_label-OffhandOf i.offhand_type i refl)
]

-- The rules for an action to be taken.
abbrev pub Takes : FightState → Text → TurnAction → Type 0
Takes f player action =
    (f.status ≡ active)
    × (((f.player_a.character_id === player) || (f.player_b.character_id === player)) ≡ true)
    × (get player f.turn_actions ≡ none)
    × ((f.player_a.character_id === player) ≡ true
        → validate_turn_action action (get_offhand_type f.equipment_a) ≡ none)
    × ((f.player_a.character_id === player) ≡ false
        → validate_turn_action action (get_offhand_type f.equipment_b) ≡ none)

is_active_iff : (st : FightStatus) → (is_active st ≡ true) ↔ (st ≡ active)
is_active_iff waiting = ground arith
is_active_iff active = ground arith
is_active_iff finished = ground arith

submits_iff :
    (now : ℕ) (luck : Luck) (player : Text) (action : TurnAction) (f : FightState)
    → ((submit_turn_action now luck player action f).1 ≡ none) ↔ Takes f player action
unfolding submit_turn_action
submits_iff now luck player action f =
    let st = is_active_iff f.status in
    elim (Bool-cases (f.player_a.character_id === player)) [
      | inl a ↦ ground (arith, st, a)
      | inr a ↦ ground (arith, st, a)
    ]

-- `resolveFightTurn` with both actions there adds exactly one result.
resolve_fight_turn-results :
    (now : ℕ) (luck : Luck) (f : FightState) (x y : TurnAction)
    → get f.player_a.character_id f.turn_actions ≡ some x
    → get f.player_b.character_id f.turn_actions ≡ some y
    → (resolve_fight_turn now luck f).turn_results
      ≡ f.turn_results
        ++ (resolve_turn f.turn f.player_a f.player_b x y luck.rolls_a luck.rolls_b).result ∷ []
unfolding resolve_fight_turn finish_fight
resolve_fight_turn-results now luck f x y ex ey = ground (arith, ex, ey)

pub accepted_is :
    (now : ℕ) (luck : Luck) (player : Text) (action : TurnAction) (f : FightState)
    → (submit_turn_action now luck player action f).1 ≡ none
    → (submit_turn_action now luck player action f).0 ≡ record_action now luck player action f
unfolding submit_turn_action
accepted_is now luck player action f h =
    elim (Option-cases (
      validate_turn_action action
        (get_offhand_type (equipment_of (f.player_a.character_id === player) f)))) [
          | inl q ↦ ground (arith, q, h)
          | inr (x, q) ↦ ground (arith, q, h)
        ]

pub refused_is :
    (now : ℕ) (luck : Luck) (player : Text) (action : TurnAction) (f : FightState) (e : SubmitError)
    → (submit_turn_action now luck player action f).1 ≡ some e
    → (submit_turn_action now luck player action f).0 ≡ f
unfolding submit_turn_action
refused_is now luck player action f e h =
    elim (Option-cases (
      validate_turn_action action
        (get_offhand_type (equipment_of (f.player_a.character_id === player) f)))) [
          | inl q ↦ ground (arith, q, h)
          | inr (x, q) ↦ ground (arith, q, h)
        ]

-- `submitTurnAction` takes an action exactly if the fight is active, the player fights in it, has not
-- yet submitted for the turn, and the action is legal for the offhand of the player's own equipment;
-- otherwise nothing changes. That offhand is a shield or a second weapon exactly if the label of the
-- item there says so, or the label says neither and the item's type does. A taken action that leaves
-- the other's open resolves nothing and is kept; one that completes the pair resolves the turn with
-- the two submitted actions, and adds one result.
pub submit_turn_action_lem :
    (now : ℕ) (luck : Luck) (player : Text) (action : TurnAction) (f : FightState)
    → let (g, error) = submit_turn_action now luck player action f in
      let actions = set player action f.turn_actions in
      ((error ≡ none) ↔ Takes f player action)
      × ((e : SubmitError) → error ≡ some e → g ≡ f)
      × (error ≡ none
          → (is_some (get f.player_a.character_id actions)
              && is_some (get f.player_b.character_id actions))
            ≡ false
          → (g.turn_results ≡ f.turn_results) × (g.turn_actions ≡ actions))
      × ((x y : TurnAction)
          → error ≡ none
          → get f.player_a.character_id actions ≡ some x
          → get f.player_b.character_id actions ≡ some y
          → g.turn_results
            ≡ f.turn_results
              ++ (resolve_turn f.turn f.player_a f.player_b x y luck.rolls_a luck.rolls_b).result
                ∷ [])
      × ((e : EquipmentSlots) → OffhandOf e.offhand (get_offhand_type e))
submit_turn_action_lem now luck player action f =
    let actions = set player action f.turn_actions in
    let g = record f { turn_actions = actions } in
    (
      submits_iff now luck player action f,
      refused_is now luck player action f,
      λ h q. rw (accepted_is now luck player action f h, q) (refl, refl),
      λ x y h ex ey.
          let both : (is_some (get f.player_a.character_id actions)
                && is_some (get f.player_b.character_id actions))
              ≡ true =
            rw (ex, ey) refl in
          rw (accepted_is now luck player action f h, both)
            (resolve_fight_turn-results now luck (record g { clock = stop_clock f.clock }) x y ex
              ey),
      get_offhand_type-OffhandOf,
    )
