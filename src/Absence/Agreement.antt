-- ===== src/Absence/Agreement.antt =====
-- server/src/ws/fight-room.ts: the fight's disconnected players are those in grace.
use sui_comabts.Prelude.{
  ℕ, ◌≡◌, refl, sym, ap, ◌∙◌, true, false, Bool, not, ◌&&◌, List, [], ◌∷◌, Option, none, some,
  arith, Text, ◌===◌, ===_refl, ===→≡, if◌then◌else◌, any, any-append, select, get, get-keep,
  passing, Bool-cases, inl, inr,
}
use sui_comabts.ReconnectGrace.{Forfeit, FightGraceRecord, is_disconnect_pending, clear_fight_grace}
use sui_comabts.ReconnectGrace.Records.{Inv}
use sui_comabts.ReconnectGrace.Invariant.{clear_fight_grace-Inv}
use sui_comabts.FightRoom.{FightState, is_active, is_bot, finish_fight, enter_grace, leave_grace}
use sui_comabts.Absence.{Arena, delist, settle_fight, forfeit}
use sui_comabts.Absence.Kept.{Kept}
use sui_comabts.Absence.Windows.{Tied}

abbrev pub is_away : Text → FightState → Bool
is_away w f = any (λ x. x === w) f.disconnected_wallets

-- `window`: while the fight is listed, exactly its disconnected players are in grace. `gone`: once a
-- fight against a player is over, nobody has a grace record. `tied`: all records are of the fight.
pub record Agrees (s : Arena) : Type 0 where
  pub grace : Inv s.grace
  pub tied : Tied s.fight_id s.grace
  pub window : s.listed ≡ true → (w : Text) → is_away w s.fight ≡ is_disconnect_pending w s.grace
  pub gone :
      s.listed ≡ false → is_bot s.fight.type ≡ false → (w : Text) → get w s.grace.records ≡ none

pub delist-Agrees : (s : Arena) → Inv s.grace → Tied s.fight_id s.grace → Agrees (delist s)
unfolding delist clear_fight_grace
delist-Agrees s i t = elim (Bool-cases (is_bot s.fight.type)) [
  | inl e ↦ rw e (record {
    grace = i;
    tied = t;
    window = λ h. absurd (ground (arith, h));
    gone = λ h b. absurd (ground (arith, b, e));
  })
  | inr e ↦ rw e (record {
    grace = clear_fight_grace-Inv s.fight_id s.grace i;
    tied = λ w r k. absurd (ground (arith, k, cleared w));
    window = λ h. absurd (ground (arith, h));
    gone = λ h b w. cleared w;
  })
]
  where
    other : FightGraceRecord → Bool
    other r = not (r.fight_id === s.fight_id)

    passed :
        (o : Option FightGraceRecord) (w : Text)
        → get w s.grace.records ≡ o
        → passing other o ≡ none
    passed none w e = refl
    passed (some r) w e = rw (t w r e) refl

    cleared : (w : Text) → get w (clear_fight_grace s.fight_id s.grace).records ≡ none
    cleared w = get-keep other w s.grace.records i.keys ∙ passed _ w refl

pub settle_fight-Agrees :
    (g : FightState) (s : Arena) → Kept s.fight g → Agrees s → Agrees (settle_fight g s)
unfolding settle_fight
settle_fight-Agrees g s k v = elim (Bool-cases (s.listed && not (is_active g.status))) [
  | inl e ↦ rw e (delist-Agrees (record s { fight = g }) v.grace v.tied)
  | inr e ↦ rw e (record {
    grace = v.grace;
    tied = v.tied;
    window = λ h w. ap (any (λ x. x === w)) k.away ∙ v.window h w;
    gone = λ h b. v.gone h (ap is_bot (sym k.type) ∙ b);
  })
]

pub forfeit-Agrees :
    (f : Forfeit) (s : Arena)
    → Inv s.grace
    → Tied s.fight_id s.grace
    → s.listed ≡ true
    → (f.fight === s.fight_id) ≡ true
    → Agrees (forfeit f s)
unfolding forfeit settle_fight finish_fight delist
forfeit-Agrees f s i t l e =
    rw (l, e) (delist-Agrees (record s { fight = finish_fight s.fight }) i t)

pub away-enter :
    (now : ℕ) (w j : Text) (f : FightState)
    → is_away j (enter_grace now w f) ≡ (if w === j then true else is_away j f)
unfolding enter_grace
away-enter now w j f = elim (Bool-cases (is_away w f)) [
  | inl e ↦ rw e (ground (arith, e, ===→≡ w j))
  | inr e ↦ rw e (ground (arith, any-append (λ x. x === j) f.disconnected_wallets (w ∷ [])))
]

pub away-leave :
    (now : ℕ) (w j : Text) (f : FightState)
    → is_away j (leave_grace now w f) ≡ (if w === j then false else is_away j f)
unfolding leave_grace
away-leave now w j f = selected f.disconnected_wallets
  where
    selected :
        (xs : List Text)
        → any (λ x. x === j) (select (λ x. not (x === w)) xs)
          ≡ (if w === j then false else any (λ x. x === j) xs)
    selected [] = ground arith
    selected (x ∷ xs) = ground (arith, selected xs, ===→≡ x j, ===→≡ x w, ===_refl x)
