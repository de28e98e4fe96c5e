-- ===== src/WagerAcceptGate/Examples.antt =====
-- Runs of the acceptance of a wager at concrete wallets.
use sui_comabts.Prelude.{
  ◌≡◌, ◌⊎◌, inr, refl, false, true, none, some, units, ◌===◌, Text-discrete, to_lower_case,
}
use sui_comabts.WagerAcceptGate.{
  LobbyWager, AcceptArgs, proceed, had_own_wager, decide_accept_outcome, decide_listed,
  different_own, same_wallet, v5_1_legacy, v5_2_approve, resolve_challenger_wallet,
}
use sui_comabts.WagerAcceptGate.Outcome.{
  decide_accept_outcome-Startable, decide_accept_outcome-auto_rollback,
  resolve_challenger_wallet_lem,
}

abbrev hers : LobbyWager
hers = record { creator_wallet = units "0xa"; wager_match_id = units "m1" }

abbrev his : LobbyWager
his = record { creator_wallet = units "0xb"; wager_match_id = units "m2" }

-- He accepted her wager while his own was open.
abbrev late : AcceptArgs
late = record {
  caller_wallet = units "0xb";
  target_wager_id = units "m1";
  target_chain_status = 1;
  caller_own_wager_in_lobby = some his;
  target_in_lobby = some hers;
  caller_in_matchmaking_queue = none;
}

-- She approved the challenger of her own wager.
abbrev approval : AcceptArgs
approval = record {
  caller_wallet = units "0xA";
  target_wager_id = units "m1";
  target_chain_status = 1;
  caller_own_wager_in_lobby = some hers;
  target_in_lobby = some hers;
  caller_in_matchmaking_queue = some false;
}

decide_accept_outcome-Startable_example : decide_accept_outcome approval ≡ proceed
unfolding Text-discrete
decide_accept_outcome-Startable_example =
    (decide_accept_outcome-Startable approval).0.1 (refl, refl, refl, inr refl)

decide_accept_outcome-auto_rollback_example : (units "m2" === units "m1") ≡ false
unfolding decide_accept_outcome decide_listed different_own to_lower_case Text-discrete
decide_accept_outcome-auto_rollback_example =
    ((decide_accept_outcome-auto_rollback late
        record {
          target = units "m1";
          caller_own_wager_id = some (units "m2");
          remove_from_matchmaking_queue = false;
          own_tag = had_own_wager;
        }
        refl).4
      (units "m2") refl).1

resolve_challenger_wallet_lem_example :
    ((v5_2_approve ≡ v5_1_legacy)
      × (units "0xb" ≡ units "0xA")
      × (same_wallet (units "0xb") (units "0xa") ≡ false))
    ⊎ ((v5_2_approve ≡ v5_2_approve)
        × (some (units "0xb") ≡ some (units "0xb"))
        × (same_wallet (units "0xA") (units "0xa") ≡ true))
unfolding resolve_challenger_wallet to_lower_case Text-discrete
resolve_challenger_wallet_lem_example =
    (resolve_challenger_wallet_lem (units "0xA") (units "0xa") (some (units "0xb"))).0 (units "0xb")
      v5_2_approve refl
