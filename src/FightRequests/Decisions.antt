-- ===== src/FightRequests/Decisions.antt =====
-- server/src/data/fight-requests.ts: the two decisions against their rules.
use sui_comabts.Prelude.{
  ℕ, ◌≤◌, ◌<◌, ◌≡◌, ◌≢◌, refl, ◌↔◌, ◌⊎◌, true, false, Option, none, some, arith, Text, ◌===◌,
  to_lower_case, length,
}
use sui_comabts.FightRequests.Guards.{
  IsAddress, IsStake, IsActor, starts_nonempty, refuses_stake-IsStake, listed_iff, too_long_iff,
  differ_iff, is_actor_iff, is_pending_iff, is_expire_iff,
}
use sui_comabts.FightRequests.{
  FightRequest, friendly, wager, FightRequestStatus, pending, accepted, declined, canceled, expired,
  is_pending, CreateInput, CreateContext, evaluate_create, TransitionAction, accept, decline,
  cancel, expire, ok, evaluate_transition, is_authorized, next_status, is_listed, too_long,
  refuses_stake,
}

-- The rules of a new request.
abbrev pub Acceptable : CreateInput → CreateContext → Type 0
Acceptable input ctx =
    ((input.request_type ≡ friendly) ⊎ (input.request_type ≡ wager))
    × IsAddress input.from_wallet
    × IsAddress input.to_wallet
    × (to_lower_case input.from_wallet ≢ to_lower_case input.to_wallet)
    × ((m : Text) → input.message ≡ some m → length m ≤ 280)
    × (input.request_type ≡ wager → IsStake input.stake_mist)
    × (ctx.pending_from_sender_count < 5)
    × (ctx.has_duplicate_pending_for_pair ≡ false)

-- The tests of `evaluateCreate`, all passed.
abbrev Passes : CreateInput → CreateContext → Type 0
Passes input ctx =
    (is_listed input.request_type ≡ true)
    × IsAddress input.from_wallet
    × IsAddress input.to_wallet
    × ((to_lower_case input.from_wallet === to_lower_case input.to_wallet) ≡ false)
    × (too_long input.message ≡ false)
    × (refuses_stake input.request_type input.stake_mist ≡ false)
    × (ctx.pending_from_sender_count < 5)
    × (ctx.has_duplicate_pending_for_pair ≡ false)

evaluate_create-Passes :
    (input : CreateInput) (ctx : CreateContext)
    → (evaluate_create input ctx ≡ none) ↔ Passes input ctx
unfolding evaluate_create
evaluate_create-Passes input ctx =
    let a = starts_nonempty (to_lower_case input.from_wallet) in
    let b = starts_nonempty (to_lower_case input.to_wallet) in ground (arith, a, b)

pub evaluate_create_lem :
    (input : CreateInput) (ctx : CreateContext)
    → (evaluate_create input ctx ≡ none) ↔ Acceptable input ctx
evaluate_create_lem input ctx =
    let (forth, back) = evaluate_create-Passes input ctx in
    let l = listed_iff input.request_type in
    let d = differ_iff (to_lower_case input.from_wallet) (to_lower_case input.to_wallet) in
    let m = too_long_iff input.message in
    let k = refuses_stake-IsStake input.request_type input.stake_mist in
    (
      λ h.
          let (l', a, b, d', m', k', n, u) = forth h in
          (l.0 l', a, b, d.0 d', m.0 m', k.0 k', n, u),
      λ (l', a, b, d', m', k', n, u). back (l.1 l', a, b, d.1 d', m.1 m', k.1 k', n, u),
    )

-- Who may take the action, and the status that it leads to.
abbrev pub Leads : FightRequest → TransitionAction → Option Text → FightRequestStatus → Type 0
Leads req accept actor st = (st ≡ accepted) × IsActor actor req.to_wallet
Leads req decline actor st = (st ≡ declined) × IsActor actor req.to_wallet
Leads req cancel actor st = (st ≡ canceled) × IsActor actor req.from_wallet
Leads req expire actor st = st ≡ expired

-- When the request may be acted on.
abbrev pub IsOpen : FightRequest → TransitionAction → ℕ → Type 0
IsOpen req action now = (req.status ≡ pending) × ((now ≤ req.expires_at) ⊎ (action ≡ expire))

is_authorized-Leads :
    (req : FightRequest) (action : TransitionAction) (actor : Option Text) (st : FightRequestStatus)
    → ((is_authorized req action actor ≡ true) × (st ≡ next_status action))
      ↔ Leads req action actor st
unfolding is_authorized
is_authorized-Leads req accept actor st =
    let (forth, back) = is_actor_iff actor req.to_wallet in
    (λ (a, e). (e, forth a), λ (e, a). (back a, e))
is_authorized-Leads req decline actor st =
    let (forth, back) = is_actor_iff actor req.to_wallet in
    (λ (a, e). (e, forth a), λ (e, a). (back a, e))
is_authorized-Leads req cancel actor st =
    let (forth, back) = is_actor_iff actor req.from_wallet in
    (λ (a, e). (e, forth a), λ (e, a). (back a, e))
is_authorized-Leads req expire actor st = ground arith

pub evaluate_transition_lem :
    (req : FightRequest) (action : TransitionAction) (actor : Option Text) (now : ℕ)
    (st : FightRequestStatus)
    → (evaluate_transition (some req) action actor now ≡ ok st) ↔ (
        IsOpen req action now × (is_authorized req action actor ≡ true) × (st ≡ next_status action))
unfolding evaluate_transition
evaluate_transition_lem req action actor now st =
    let p = is_pending_iff req.status in let q = is_expire_iff action in ground (arith, p, q)

pub next_status-settled : (action : TransitionAction) → is_pending (next_status action) ≡ false
next_status-settled accept = refl
next_status-settled decline = refl
next_status-settled cancel = refl
next_status-settled expire = refl

-- The two decisions. `evaluateCreate` lets a request pass exactly if it obeys every rule: a friendly
-- fight or a wager, two different addresses, a message of at most 280 characters, for a wager a stake
-- that is a number of at least 100000000, fewer than five requests of the sender pending, and none to
-- the same player. `evaluateTransition` moves a request to a status exactly if it is pending, its time
-- is not over unless the action is the expiry, and the status is accepted or declined by the wallet
-- that the request went to, canceled by the wallet that it came from, or expired by anyone, as the
-- action says.
pub decisions_lem :
    (input : CreateInput) (ctx : CreateContext) (req : FightRequest) (action : TransitionAction)
    (actor : Option Text) (now : ℕ)
    → ((evaluate_create input ctx ≡ none) ↔ Acceptable input ctx)
      × ((st : FightRequestStatus)
          → (evaluate_transition (some req) action actor now ≡ ok st)
            ↔ (IsOpen req action now × Leads req action actor st))
decisions_lem input ctx req action actor now = (
  evaluate_create_lem input ctx,
  λ st.
      let (forth, back) = evaluate_transition_lem req action actor now st in
      let l = is_authorized-Leads req action actor st in
      (
        λ h. let (o, a, e) = forth h in (o, l.0 (a, e)),
        λ (o, h). let (a, e) = l.1 h in back (o, a, e),
      ),
)
