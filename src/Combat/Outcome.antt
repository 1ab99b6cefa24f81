-- ===== src/Combat/Outcome.antt =====
-- What `resolve` answers on every branch.
use wargame.Prelude.{ℕ, ◌/◌, ◌^◌, ◌<◌, ◌≡◌, refl, true, false, if_cases, arith}
use wargame.Prelude.Qt.{Qt, clamp, max_double}
use wargame.Combat.{
  CombatRequest, CombatOutcome, WeaponProfile, one, mix64, unit_sample, shot_seed, is_refused,
  effective_probability, damage_of, undecided, resolve,
}
use wargame.Combat.Digits.{mix64-lt}

module _ (q : Qt) where
  -- A double from 0 to 1.
  abbrev pub IsUnit : q.Double → Type 0
  IsUnit x = (q.lt x q.zero ≡ false) × (q.lt (one q) x ≡ false)

  -- The multiples of 2 ^ -53 that `unitSample` returns.
  abbrev pub IsSample : q.Double → Type 0
  IsSample x =
      (n : ℕ) × (n < 2 ^ 53) × (x ≡ q.mul (q.of_nat n) (q.div (one q) (q.of_nat 9007199254740992)))

  pub record Resolved (r : CombatRequest q) (o : CombatOutcome q) : Type 0 where
    pub attacker : o.attacker_id ≡ r.attacker_id
    pub target : o.target_id ≡ r.target_id
    pub refused :
        is_refused q r ≡ true
        → (o.result ≡ "out_of_range") × (o.roll ≡ q.zero) × (o.damage ≡ q.zero)
    pub fired : is_refused q r ≡ false → IsSample o.roll × IsUnit o.effective_probability
    pub missed :
        is_refused q r ≡ false
        → q.le o.effective_probability o.roll ≡ true
        → (o.result ≡ "miss") × (o.damage ≡ q.zero)
    pub hit :
        is_refused q r ≡ false
        → q.le o.effective_probability o.roll ≡ false
        → (o.result ≡ "hit") × (q.lt o.damage q.zero ≡ false)

  unit_sample-IsSample : (value : ℕ) → value < 2 ^ 64 → IsSample (unit_sample q value)
  unfolding unit_sample
  unit_sample-IsSample value h = (value / 2 ^ 11, omega arith, refl)

  -- What the comparisons of doubles are taken to be: `<` is asymmetric, and 0 and 1 are apart.
  module _ (asym : (a b : q.Double) → q.lt a b ≡ true → q.lt b a ≡ false)
      (irrefl : (a : q.Double) → q.lt a a ≡ false) (zero_one : q.lt q.zero (one q) ≡ true) where
    clamp-IsUnit : (x : q.Double) → IsUnit (clamp q x q.zero (one q))
    clamp-IsUnit x =
        if_cases IsUnit (q.lt x q.zero) (λ low. (irrefl q.zero, asym _ _ zero_one))
          (λ not_low.
            if_cases IsUnit (q.lt (one q) x) (λ high. (asym _ _ zero_one, irrefl (one q)))
              (λ not_high. (not_low, not_high)))

    max_double-zero : (x : q.Double) → q.lt (max_double q q.zero x) q.zero ≡ false
    max_double-zero x =
        if_cases (λ y. q.lt y q.zero ≡ false) (q.lt q.zero x) (λ more. asym _ _ more)
          (λ less. irrefl q.zero)

    effective_probability-IsUnit : (r : CombatRequest q) → IsUnit (effective_probability q r)
    unfolding effective_probability
    effective_probability-IsUnit r = clamp-IsUnit _

    damage_of-lt :
        (w : WeaponProfile q) (sample : q.Double) → q.lt (damage_of q w sample) q.zero ≡ false
    unfolding damage_of
    damage_of-lt w sample = max_double-zero _

    -- With `<` asymmetric and irreflexive and 0 below 1: a refused request is out of range and rolls
    -- nothing; any other rolls a multiple of 2 ^ -53 below 1 against a probability from 0 to 1, and it
    -- misses, without damage, exactly when the roll is at least the probability, and else hits with
    -- a damage that is not negative.
    pub resolve-Resolved :
        (r : CombatRequest q) (battle_seed : ℕ) → Resolved r (resolve q r battle_seed)
    unfolding resolve undecided
    resolve-Resolved r battle_seed =
        let seed = shot_seed q r battle_seed in
        let rolled : IsSample (unit_sample q (mix64 seed)) × IsUnit (effective_probability q r) =
          (unit_sample-IsSample (mix64 seed) (mix64-lt seed), effective_probability-IsUnit r) in
        if_cases (Resolved r) (is_refused q r)
          (λ is. record {
            attacker = refl;
            target = refl;
            refused = λ e. (refl, refl, refl);
            fired = λ e. cc;
            missed = λ e l. cc;
            hit = λ e l. cc;
          })
          (λ fine.
            if_cases (Resolved r) (q.le (effective_probability q r) (unit_sample q (mix64 seed)))
              (λ over. record {
                attacker = refl;
                target = refl;
                refused = λ e. cc;
                fired = λ e. rolled;
                missed = λ e l. (refl, refl);
                hit = λ e l. cc;
              })
              (λ under. record {
                attacker = refl;
                target = refl;
                refused = λ e. cc;
                fired = λ e. rolled;
                missed = λ e l. cc;
                hit = λ e l. (refl, damage_of-lt r.weapon _);
              }))
