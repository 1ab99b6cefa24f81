-- ===== src/Tests/Shots.antt =====
-- A shot in range with a sure weapon.
use wargame.Prelude.{ℕ, ◌≡◌, refl, true, false, arith, ltb}
use wargame.Combat.{WeaponProfile, CombatRequest, resolve}
use wargame.Combat.Outcome.{Resolved, resolve-Resolved}
use wargame.Tests.Data.{nat_qt}

abbrev cannon : WeaponProfile nat_qt
cannon = record {
  hit_probability = 1;
  min_range = 0;
  optimal_range = 10;
  max_range = 10;
  damage_min = 80;
  damage_max = 110;
  range_falloff = 0;
}

abbrev shot : CombatRequest nat_qt
shot = record {
  attacker_id = "attacker";
  target_id = "enemy";
  shot_sequence = 7;
  distance = 5;
  attacker_effectiveness = 1;
  weapon = cannon;
}

ltb_asym : (a b : ℕ) → ltb a b ≡ true → ltb b a ≡ false
ltb_asym a b e = ground (arith, e)

ltb_irrefl : (a : ℕ) → ltb a a ≡ false
ltb_irrefl a = ground arith

resolve-Resolved_example : Resolved nat_qt shot (resolve nat_qt shot 42)
resolve-Resolved_example = resolve-Resolved nat_qt ltb_asym ltb_irrefl refl shot 42
