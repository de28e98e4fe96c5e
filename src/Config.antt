-- ===== src/Config.antt =====
-- server/src/config.ts: the game constants that the models use.
use sui_comabts.Prelude.{ℕ, List, [], ◌∷◌}

abbrev pub turn_timer_ms : ℕ
turn_timer_ms = 20000

abbrev pub max_level : ℕ
max_level = 20

abbrev pub stat_points_per_level : ℕ
stat_points_per_level = 3

abbrev pub starting_stat_points : ℕ
starting_stat_points = 20

abbrev pub min_stat : ℕ
min_stat = 3

abbrev pub default_rating : ℕ
default_rating = 1000

abbrev pub starting_gold : ℕ
starting_gold = 0

-- Index 0 is unused.
abbrev pub level_hp : List ℕ
level_hp =
    0 ∷ 40 ∷ 50 ∷ 65 ∷ 85 ∷ 110 ∷ 140 ∷ 175 ∷ 215 ∷ 260 ∷ 310 ∷ 365 ∷ 425 ∷ 490 ∷ 560 ∷ 635 ∷ 715
    ∷ 800 ∷ 890 ∷ 985 ∷ 1085 ∷ []

abbrev pub level_weapon_damage : List ℕ
level_weapon_damage =
    0 ∷ 6 ∷ 8 ∷ 11 ∷ 14 ∷ 18 ∷ 22 ∷ 27 ∷ 32 ∷ 38 ∷ 44 ∷ 50 ∷ 57 ∷ 64 ∷ 72 ∷ 80 ∷ 88 ∷ 97 ∷ 106 ∷ 116
    ∷ 126 ∷ []

-- Index `level - 1`.
abbrev pub level_xp_cumulative : List ℕ
level_xp_cumulative =
    0 ∷ 100 ∷ 300 ∷ 700 ∷ 1500 ∷ 3000 ∷ 6000 ∷ 12000 ∷ 25000 ∷ 50000 ∷ 80000 ∷ 120000 ∷ 170000
    ∷ 250000 ∷ 350000 ∷ 430000 ∷ 550000 ∷ 700000 ∷ 850000 ∷ 1000000 ∷ []

abbrev pub hp_per_endurance : ℕ
hp_per_endurance = 3

abbrev pub default_attack_zones : ℕ
default_attack_zones = 1

abbrev pub default_block_zones : ℕ
default_block_zones = 2

abbrev pub shield_block_zones : ℕ
shield_block_zones = 3

abbrev pub dual_wield_attack_zones : ℕ
dual_wield_attack_zones = 2

abbrev pub dual_wield_block_zones : ℕ
dual_wield_block_zones = 1

abbrev pub max_xp_per_fight : ℕ
max_xp_per_fight = 1000

abbrev pub matchmaking_initial_range : ℕ
matchmaking_initial_range = 200

abbrev pub matchmaking_expand_amount : ℕ
matchmaking_expand_amount = 50

abbrev pub matchmaking_expand_interval_ms : ℕ
matchmaking_expand_interval_ms = 10000
