-- ===== src/Combat.antt =====
-- src/core/CombatResolver.h and .cpp: one shot, decided by a hash of the battle's seed, the shot's
-- number and the two ids.
pub mod Digits
pub mod Outcome
use Prim.Native.Nat.{bit_xor}
use wargame.Prelude.{
  ℕ, ◌+◌, ◌-◌, ◌*◌, ◌/◌, ◌%◌, ◌^◌, Bool, true, false, not, ◌&&◌, ◌||◌, String, List, [], ◌∷◌,
  if◌then◌else◌,
}
use wargame.Prelude.Qt.{Qt, clamp, max_double}

pub mix64 : ℕ → ℕ
mix64 value =
    let a = (value + 11400714819323198485) % 2 ^ 64 in
    let b = bit_xor a (a / 2 ^ 30) * 13787848793156543929 % 2 ^ 64 in
    let c = bit_xor b (b / 2 ^ 27) * 10723151780598845931 % 2 ^ 64 in bit_xor c (c / 2 ^ 31)

pub hash_bytes : ℕ → List ℕ → ℕ
hash_bytes seed [] = seed
hash_bytes seed (byte ∷ bytes) = hash_bytes (mix64 (bit_xor seed byte)) bytes

module _ (q : Qt) where
  pub record WeaponProfile : Type 0 where
    pub hit_probability : q.Double
    pub min_range : q.Double
    pub optimal_range : q.Double
    pub max_range : q.Double
    pub damage_min : q.Double
    pub damage_max : q.Double
    pub range_falloff : q.Double

  pub record CombatRequest : Type 0 where
    pub attacker_id : String
    pub target_id : String
    pub shot_sequence : ℕ
    pub distance : q.Double
    pub attacker_effectiveness : q.Double
    pub weapon : WeaponProfile

  -- `CombatOutcome`, whose hit points the resolver leaves at 0.
  pub record CombatOutcome : Type 0 where
    pub shot_id : String
    pub attacker_id : String
    pub target_id : String
    pub result : String
    pub shot_sequence : ℕ
    pub distance : q.Double
    pub effective_probability : q.Double
    pub roll : q.Double
    pub damage : q.Double

  abbrev pub one : q.Double
  one = q.of_nat 1

  pub unit_sample : ℕ → q.Double
  unit_sample value = q.mul (q.of_nat (value / 2 ^ 11)) (q.div one (q.of_nat 9007199254740992))

  pub shot_seed : CombatRequest → ℕ → ℕ
  shot_seed request battle_seed =
      let value = mix64 (bit_xor battle_seed request.shot_sequence) in
      hash_bytes (hash_bytes value (q.to_utf8 request.attacker_id)) (q.to_utf8 request.target_id)

  pub is_all_finite : CombatRequest → Bool
  is_all_finite r =
      q.is_finite r.distance
      && q.is_finite r.attacker_effectiveness
      && q.is_finite r.weapon.hit_probability
      && q.is_finite r.weapon.min_range
      && q.is_finite r.weapon.optimal_range
      && q.is_finite r.weapon.max_range
      && q.is_finite r.weapon.damage_min
      && q.is_finite r.weapon.damage_max
      && q.is_finite r.weapon.range_falloff

  pub is_refused : CombatRequest → Bool
  is_refused r =
      not (is_all_finite r)
      || q.lt r.distance r.weapon.min_range
      || q.lt r.weapon.max_range r.distance
      || q.lt r.weapon.max_range r.weapon.min_range
      || q.lt r.weapon.damage_max r.weapon.damage_min

  -- Weapons below 100% are degraded by the attacker's effectiveness.
  pub degraded : CombatRequest → q.Double
  degraded r =
      let probability = clamp q r.weapon.hit_probability q.zero one in
      if q.lt probability one
      then q.mul probability (clamp q r.attacker_effectiveness q.zero one)
      else probability

  pub effective_probability : CombatRequest → q.Double
  effective_probability r =
      let ratio =
        q.div (q.sub r.distance r.weapon.optimal_range)
          (q.sub r.weapon.max_range r.weapon.optimal_range) in
      let falloff = q.mul (max_double q q.zero r.weapon.range_falloff) ratio in
      let probability =
        if q.lt r.weapon.optimal_range r.distance && q.lt r.weapon.optimal_range r.weapon.max_range
        then q.mul (degraded r) (max_double q q.zero (q.sub one falloff))
        else degraded r in
      clamp q probability q.zero one

  pub damage_of : WeaponProfile → q.Double → q.Double
  damage_of w sample =
      max_double q q.zero (q.add w.damage_min (q.mul (q.sub w.damage_max w.damage_min) sample))

  -- The outcome before anything is decided.
  pub undecided : CombatRequest → CombatOutcome
  undecided r = record {
    shot_id = q.arg (q.arg_text "%1:%2" r.attacker_id) r.shot_sequence;
    attacker_id = r.attacker_id;
    target_id = r.target_id;
    result = "";
    shot_sequence = r.shot_sequence;
    distance = r.distance;
    effective_probability = q.zero;
    roll = q.zero;
    damage = q.zero;
  }

  unfoldable pub resolve : CombatRequest → ℕ → CombatOutcome
  resolve r battle_seed =
      let seed = shot_seed r battle_seed in
      let probability = effective_probability r in
      let roll = unit_sample (mix64 seed) in
      let fired = record (undecided r) { effective_probability = probability; roll = roll } in
      if is_refused r
      then record (undecided r) { result = "out_of_range" }
      else if q.le probability roll
      then record fired { result = "miss" }
      else record fired {
        result = "hit";
        damage = damage_of r.weapon (unit_sample (mix64 (bit_xor seed 15111065706836454659)));
      }
