-- ===== src/Matchmaking/Pass.antt =====
-- server/src/game/matchmaking.ts: what one matching pass does with the wallets of the queue.
use sui_comabts.Prelude.{
  ℕ, ◌+◌, ◌-◌, ◌*◌, ◌/◌, ◌≤◌, min, ◌≡◌, ◌≢◌, refl, Bool, true, false, ◌&&◌, ◌||◌, not, List, [],
  ◌∷◌, ◌++◌, Option, none, some, arith, Text, ◌===◌, any, select, All, All-append, All-map,
  find-some, any-append, Bool-cases, Option-cases, inl, inr,
}
use sui_comabts.Types.{FightType, wager, friendly}
use sui_comabts.Matchmaking.{
  QueueEntry, Matching, same_amount, distance, has, can_match, find_partner, add_pair, try_entry,
  no_matches, match_queue, unmatched, try_match_players, is_in_queue, by_type,
}
use sui_comabts.Matchmaking.Groups.{
  match_groups-keeps, IsGroup, IsGroup-tail, groups_of_queue, Distinct,
}

-- The wallet is one side of a pair handed to `onMatchFound`.
abbrev pub in_pairs : Text → List (QueueEntry × QueueEntry) → Bool
in_pairs w = any λ p. p.0.wallet_address === w || p.1.wallet_address === w

-- No wallet stands in two of the pairs, nor twice in one.
abbrev pub DistinctPairs : List (QueueEntry × QueueEntry) → Type 0
DistinctPairs [] = Unit
DistinctPairs (p ∷ ps) =
    ((p.0.wallet_address === p.1.wallet_address) ≡ false)
    × (in_pairs p.0.wallet_address ps ≡ false)
    × (in_pairs p.1.wallet_address ps ≡ false)
    × DistinctPairs ps

in_pairs-append :
    (w : Text) (ps qs : List (QueueEntry × QueueEntry))
    → in_pairs w (ps ++ qs) ≡ (in_pairs w ps || in_pairs w qs)
in_pairs-append w = any-append λ p. p.0.wallet_address === w || p.1.wallet_address === w

DistinctPairs-snoc :
    (ps : List (QueueEntry × QueueEntry)) (a b : QueueEntry)
    → DistinctPairs ps
    → (a.wallet_address === b.wallet_address) ≡ false
    → in_pairs a.wallet_address ps ≡ false
    → in_pairs b.wallet_address ps ≡ false
    → DistinctPairs (ps ++ (a, b) ∷ [])
DistinctPairs-snoc [] a b d n f g = (n, refl, refl, tt)
DistinctPairs-snoc (p ∷ ps) a b d n f g = (
  d.0,
  ground (arith, in_pairs-append p.0.wallet_address ps ((a, b) ∷ [])),
  ground (arith, in_pairs-append p.1.wallet_address ps ((a, b) ∷ [])),
  DistinctPairs-snoc ps a b d.3 n (ground arith) (ground arith),
)

-- What holds of the loop's state between two rounds.
pub record Sound (queue : List QueueEntry) (now : ℕ) (s : Matching) : Type 0 where
  pub tracks : (w : Text) → has w s.matched ≡ in_pairs w s.pairs
  pub apart : DistinctPairs s.pairs
  pub queued : (w : Text) → in_pairs w s.pairs ≡ true → is_in_queue w queue ≡ true
  pub fits : All (λ p. can_match p.0 p.1 p.0.fight_type now ≡ true) s.pairs

module _ (queue : List QueueEntry) (now : ℕ) where
  add_pair-Sound :
      (a b : QueueEntry) (s : Matching)
      → Sound queue now s
      → (a.wallet_address === b.wallet_address) ≡ false
      → has a.wallet_address s.matched ≡ false
      → has b.wallet_address s.matched ≡ false
      → is_in_queue a.wallet_address queue ≡ true
      → is_in_queue b.wallet_address queue ≡ true
      → can_match a b a.fight_type now ≡ true
      → Sound queue now (add_pair a (some b) s)
  add_pair-Sound a b s h n fa fb qa qb c = record {
    tracks = λ w. ground (arith, h.tracks w, in_pairs-append w s.pairs ((a, b) ∷ []));
    apart =
        DistinctPairs-snoc s.pairs a b h.apart n (ground (arith, h.tracks a.wallet_address))
          (ground (arith, h.tracks b.wallet_address));
    queued = λ w e. ground (arith, h.queued w, in_pairs-append w s.pairs ((a, b) ∷ []));
    fits =
        All-append (λ p. can_match p.0 p.1 p.0.fight_type now ≡ true) s.pairs ((a, b) ∷ []) h.fits
          (c, tt);
  }

  -- What the search for a partner may use about a later entry.
  abbrev Later : QueueEntry → QueueEntry → Type 0
  Later a b =
      ((a.wallet_address === b.wallet_address) ≡ false)
      × (is_in_queue b.wallet_address queue ≡ true)

  Later-entries :
      (a : QueueEntry) (later : List QueueEntry)
      → is_in_queue a.wallet_address later ≡ false
      → All (λ e. is_in_queue e.wallet_address queue ≡ true) later
      → All (Later a) later
  unfolding is_in_queue
  Later-entries a [] n q = tt
  Later-entries a (b ∷ later) n q = ((ground arith, q.0), Later-entries a later (ground arith) q.1)

  try_entry-Sound :
      (t : FightType) (a : QueueEntry) (later : List QueueEntry) (s : Matching)
      → IsGroup queue t (a ∷ later)
      → Sound queue now s
      → Sound queue now (try_entry t now a later s)
  unfolding try_entry find_partner
  try_entry-Sound t a later s g h = elim (Bool-cases (has a.wallet_address s.matched)) [
    | inl e ↦ rw e h
    | inr e ↦ elim (Option-cases (find_partner t now s.matched a later)) [
      | inl m ↦ rw (e, m) h
      | inr (b, m) ↦
          let (l, found) =
            find-some _ (Later a) later (Later-entries a later g.distinct.0 g.queued.1) m in
          rw (e, m)
            (add_pair-Sound a b s h l.0 e (ground arith) g.queued.0 l.1
              (rw (← g.typed.0) (ground arith)))
    ]
  ]

  pub match_queue-Sound : Distinct queue → Sound queue now (match_queue now queue)
  unfolding match_queue
  match_queue-Sound d =
      match_groups-keeps (Sound queue now) (IsGroup queue) now IsGroup-tail try_entry-Sound
        (by_type queue []) no_matches (groups_of_queue queue d)
        (record { tracks = λ w. refl; apart = tt; queued = λ w e. cc; fits = tt })

-- What two matched players have in common: the fight type; the stake of a wager; and, unless the
-- fight is friendly, a rating gap of at most 200 points and 50 more for each full ten seconds that
-- the one who joined first has waited.
pub record Compatible (now : ℕ) (a b : QueueEntry) : Type 0 where
  pub same_fight : a.fight_type ≡ b.fight_type
  pub same_stake : a.fight_type ≡ wager → a.wager_amount ≡ b.wager_amount
  pub in_range :
      a.fight_type ≢ friendly
      → min a.joined_at b.joined_at ≤ now
      → distance a.rating b.rating ≤ 200 + 50 * ((now - min a.joined_at b.joined_at) / 10000)

same_amount-eq : (o u : Option ℕ) → same_amount o u ≡ true → o ≡ u
same_amount-eq none none e = refl
same_amount-eq none (some _) e = cc
same_amount-eq (some _) none e = cc
same_amount-eq (some a) (some b) e = ground arith

can_match-Compatible :
    (now : ℕ) (a b : QueueEntry) → can_match a b a.fight_type now ≡ true → Compatible now a b
unfolding can_match
can_match-Compatible now a b e = record {
  same_fight = ground arith;
  same_stake = λ w. ground (arith, same_amount-eq a.wager_amount b.wager_amount);
  in_range = λ n le. ground arith;
}

-- From a queue of distinct wallets, any two players whom a pass hands to `onMatchFound` have the same
-- fight type, in a wager fight the same stake, and in any but a friendly fight ratings as close as
-- the range that has grown while they waited.
pub try_match_players-Compatible :
    (now : ℕ) (queue : List QueueEntry)
    → Distinct queue
    → All (λ p. Compatible now p.0 p.1) (try_match_players now queue).1
unfolding try_match_players
try_match_players-Compatible now queue d =
    All-map _ _ (match_queue now queue).pairs (λ p. can_match-Compatible now p.0 p.1)
      (match_queue-Sound queue now d).fits

-- The wallets left in the queue are those of the old queue that the pass did not match.
is_in_queue-unmatched :
    (w : Text) (s : Matching) (queue : List QueueEntry)
    → is_in_queue w (select (unmatched s) queue) ≡ (is_in_queue w queue && not (has w s.matched))
unfolding is_in_queue
is_in_queue-unmatched w s [] = refl
is_in_queue-unmatched w s (e ∷ queue) = ground (arith, is_in_queue-unmatched w s queue)

-- From a queue of distinct wallets, a pass loses no player and matches none twice: each wallet of
-- the queue is either still queued or in a pair and never both, no other wallet is in either, and
-- no wallet stands in two pairs or on both sides of one.
pub try_match_players-partition :
    (now : ℕ) (queue : List QueueEntry)
    → Distinct queue
    → let (rest, pairs) = try_match_players now queue in
      ((w : Text)
        → (is_in_queue w queue ≡ (is_in_queue w rest || in_pairs w pairs))
          × ((is_in_queue w rest && in_pairs w pairs) ≡ false))
      × DistinctPairs pairs
unfolding try_match_players
try_match_players-partition now queue d =
    let h = match_queue-Sound queue now d in
    let s = match_queue now queue in
    (
      λ w. (
        ground (arith, is_in_queue-unmatched w s queue, h.tracks w, h.queued w),
        ground (arith, is_in_queue-unmatched w s queue, h.tracks w),
      ),
      h.apart,
    )
