-- ===== src/FightRequests/Guards.antt =====
-- server/src/data/fight-requests.ts: what each test of the two decisions means.
use sui_comabts.Prelude.{
  ℕ, ◌≤◌, ◌≡◌, ◌≢◌, refl, sym, ap, ◌∙◌, inl, inr, Bool-cases, Option-cases, ===→≡, ===_refl, ◌↔◌,
  ◌⊎◌, true, false, [], ◌∷◌, Option, none, some, arith, Text, units, ◌===◌, to_lower_case,
  starts_with, length, ◌==◌,
}
use sui_comabts.BigInts.{BigInt, big_int}
use sui_comabts.FightRequests.{
  FightRequestType, friendly, wager, FightRequestStatus, pending, accepted, declined, canceled,
  expired, is_pending, TransitionAction, accept, decline, cancel, expire, stake_allowed, is_expire,
  is_listed, is_actor, too_long, refuses_stake,
}

-- The text is the address of a player: lower-cased, it starts with `0x`.
abbrev pub IsAddress : Text → Type 0
IsAddress w = starts_with (to_lower_case w) (units "0x") ≡ true

-- A stake that a wager may have: a number that is not below the minimum.
abbrev pub IsStake : Option Text → Type 0
IsStake stake =
    (s : Text) × (n : ℕ) × (stake ≡ some s)
    × (length s ≢ 0)
    × (big_int s ≡ some (BigInt.plus n))
    × (100000000 ≤ n)

pub starts_nonempty : (s : Text) → starts_with s (units "0x") ≡ true → (length s == 0) ≡ false
unfolding starts_with
starts_nonempty [] h = cc
starts_nonempty (c ∷ s) h = ground arith

pub stake_allowed_iff : (stake : Option Text) → (stake_allowed stake ≡ true) ↔ IsStake stake
unfolding stake_allowed
stake_allowed_iff none = (λ h. cc, λ (s, n, e, _, _, _). cc)
stake_allowed_iff (some s) = elim (Option-cases (big_int s)) [
  | inl e ↦ (
    λ h. absurd (ground (arith, e)),
    λ (t, n, q, _, b, _). let c : s ≡ t = cc in absurd (ground (arith, e, ap big_int c, b)),
  )
  | inr (BigInt.plus k, e) ↦ (
    λ h. (s, k, refl, ground (arith, e), e, ground (arith, e)),
    λ (t, n, q, l, b, le).
        let c : s ≡ t = cc in
        let same : some (BigInt.plus k) ≡ some (BigInt.plus n) = sym e ∙ ap big_int c ∙ b in
        ground (arith, e, same, ap length c, l, le),
  )
  | inr (BigInt.minus k, e) ↦ (
    λ h. absurd (ground (arith, e)),
    λ (t, n, q, _, b, _). let c : s ≡ t = cc in absurd (ground (arith, e, ap big_int c, b)),
  )
]

pub refuses_stake-IsStake :
    (t : FightRequestType) (stake : Option Text)
    → (refuses_stake t stake ≡ false) ↔ (t ≡ wager → IsStake stake)
refuses_stake-IsStake friendly stake = (λ h e. absurd (ground arith), λ h. refl)
refuses_stake-IsStake wager stake = (
  λ h e. (stake_allowed_iff stake).0 (ground arith),
  λ h. let a = (stake_allowed_iff stake).1 (h refl) in rw a refl,
)
refuses_stake-IsStake (FightRequestType.unlisted t) stake =
    (λ h e. absurd (ground arith), λ h. refl)

pub listed_iff : (t : FightRequestType) → (is_listed t ≡ true) ↔ ((t ≡ friendly) ⊎ (t ≡ wager))
listed_iff friendly = ground arith
listed_iff wager = ground arith
listed_iff (FightRequestType.unlisted t) = ground arith

pub too_long_iff :
    (message : Option Text)
    → (too_long message ≡ false) ↔ ((m : Text) → message ≡ some m → length m ≤ 280)
too_long_iff none = (λ h m e. cc, λ h. refl)
too_long_iff (some m) = (λ h t e. ground (arith, h, e), λ h. ground (arith, h m refl))

pub differ_iff : (s t : Text) → ((s === t) ≡ false) ↔ (s ≢ t)
differ_iff s t = elim (Bool-cases (s === t)) [
  | inl e ↦ (λ h. absurd (ground arith), λ n. absurd (n (===→≡ s t e)))
  | inr e ↦ (λ h q. absurd (ground (arith, q, e, ===_refl t)), λ n. e)
]

-- The actor is the wallet.
abbrev pub IsActor : Option Text → Text → Type 0
IsActor actor wallet =
    (a : Text) × (actor ≡ some a)
    × (to_lower_case a ≢ [])
    × (to_lower_case a ≡ to_lower_case wallet)

nonempty_iff : (s : Text) → ((length s == 0) ≡ false) ↔ (s ≢ [])
nonempty_iff [] = (λ h. cc, λ n. absurd (n refl))
nonempty_iff (c ∷ s) = (λ h e. cc, λ n. ground arith)

pub is_actor_iff :
    (actor : Option Text) (wallet : Text) → (is_actor actor wallet ≡ true) ↔ IsActor actor wallet
is_actor_iff none wallet = (λ h. cc, λ (a, e, _, _). cc)
is_actor_iff (some a) wallet =
    let (there, back) = nonempty_iff (to_lower_case a) in
    (
      λ h. (
        a,
        refl,
        there (ground arith),
        ===→≡ (to_lower_case a) (to_lower_case wallet) (ground arith),
      ),
      λ (b, e, n, q).
          let c : a ≡ b = cc in
          let l : (length (to_lower_case a) == 0) ≡ false =
            rw c ((nonempty_iff (to_lower_case b)).1 n) in
          let same : (to_lower_case a === to_lower_case wallet) ≡ true =
            rw (c, q) (===_refl (to_lower_case wallet)) in
          rw (l, same) refl,
    )

pub is_pending_iff : (st : FightRequestStatus) → (is_pending st ≡ true) ↔ (st ≡ pending)
is_pending_iff pending = ground arith
is_pending_iff accepted = ground arith
is_pending_iff declined = ground arith
is_pending_iff canceled = ground arith
is_pending_iff expired = ground arith

pub is_expire_iff : (a : TransitionAction) → (is_expire a ≡ true) ↔ (a ≡ expire)
is_expire_iff accept = ground arith
is_expire_iff decline = ground arith
is_expire_iff cancel = ground arith
is_expire_iff expire = ground arith
