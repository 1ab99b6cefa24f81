-- ===== src/Server/StrictTask/Chain.antt =====
-- The stages of a strict task in their order, which is that of the actions.
use wargame.Prelude.{
  ◌≡◌, refl, Bool, true, false, ◌&&◌, ◌||◌, String, List, [], ◌∷◌, arith, str_eq, str_eq_iff,
  contains, if_cases, sym,
}
use wargame.Server.StrictTask.Task.{allowed, valid_stage_action, next_stage}

abbrev pub stages : List String
stages =
    "awaitingTargetReport" ∷ "targetReported" ∷ "dispatchPending" ∷ "enRoute"
    ∷ "groundGuidancePending" ∷ "rendezvousReady" ∷ "identityHandshakePending"
    ∷ "guidancePackagePending" ∷ "routeAcceptancePending" ∷ "attackLanePending"
    ∷ "attackAuthorizationPending" ∷ "engaging" ∷ "damageReportPending" ∷ "damageAssessmentPending"
    ∷ "reconConfirmationPending" ∷ "targetDestroyed" ∷ "withdrawPending" ∷ "returning" ∷ []

-- The second stage stands right behind the first.
abbrev pub follows_in : List String → String → String → Bool
follows_in [] s s' = false
follows_in (a ∷ as_) s s' = elim as_ [
  | [] ↦ false
  | b ∷ bs ↦ (str_eq a s && str_eq b s') || follows_in as_ s s'
]

follows_in-same :
    (s a stage action : String)
    → follows_in stages s (next_stage a) ≡ true
    → str_eq stage s ≡ true
    → contains (a ∷ []) action ≡ true
    → follows_in stages stage (next_stage action) ≡ true
follows_in-same s a stage action h e c =
    let p : stage ≡ s = (str_eq_iff stage s).0 e in
    let k : a ≡ action = ground (arith, c, str_eq_iff a action) in rw (p, sym k) h

module _ (stage action : String) where
  abbrev Leads : List String → Type 0
  Leads actions =
      contains actions action ≡ true → follows_in stages stage (next_stage action) ≡ true

  row-Leads :
      (s a : String)
      → follows_in stages s (next_stage a) ≡ true
      → str_eq stage s ≡ true
      → Leads (a ∷ [])
  row-Leads s a h e c = follows_in-same s a stage action h e c

  -- An action that the stage allows leads to the stage behind it.
  pub valid_stage_action-next_stage :
      valid_stage_action stage action ≡ true → follows_in stages stage (next_stage action) ≡ true
  unfolding valid_stage_action allowed next_stage
  valid_stage_action-next_stage =
      (if_cases Leads (str_eq stage "awaitingTargetReport")
        (row-Leads "awaitingTargetReport" "reportTarget" refl)
        (λ _.
          (if_cases Leads (str_eq stage "targetReported")
            (row-Leads "targetReported" "dispatch" refl)
            (λ _.
              (if_cases Leads (str_eq stage "dispatchPending")
                (row-Leads "dispatchPending" "acceptDispatch" refl)
                (λ _.
                  (if_cases Leads (str_eq stage "enRoute")
                    (row-Leads "enRoute" "orderGroundGuidance" refl)
                    (λ _.
                      (if_cases Leads (str_eq stage "groundGuidancePending")
                        (row-Leads "groundGuidancePending" "markRendezvousReady" refl)
                        (λ _.
                          (if_cases Leads (str_eq stage "rendezvousReady")
                            (row-Leads "rendezvousReady" "identityHello" refl)
                            (λ _.
                              (if_cases Leads (str_eq stage "identityHandshakePending")
                                (row-Leads "identityHandshakePending" "identityConfirm" refl)
                                (λ _.
                                  (if_cases Leads (str_eq stage "guidancePackagePending")
                                    (row-Leads "guidancePackagePending" "sendGuidancePackage" refl)
                                    (λ _.
                                      (if_cases Leads (str_eq stage "routeAcceptancePending")
                                        (row-Leads "routeAcceptancePending" "acceptGuidance" refl)
                                        (λ _.
                                          (if_cases Leads (str_eq stage "attackLanePending")
                                            (row-Leads "attackLanePending" "reportAttackReady" refl)
                                            (λ _.
                                              (if_cases Leads
                                                (str_eq stage "attackAuthorizationPending")
                                                (row-Leads "attackAuthorizationPending"
                                                  "authorizeAttack" refl)
                                                (λ _.
                                                  (if_cases Leads (str_eq stage "engaging")
                                                    (row-Leads "engaging" "engage" refl)
                                                    (λ _.
                                                      (if_cases Leads
                                                        (str_eq stage "damageReportPending")
                                                        (row-Leads "damageReportPending"
                                                          "reportBattleDamage" refl)
                                                        (λ _.
                                                          (if_cases Leads
                                                            (str_eq stage "damageAssessmentPending")
                                                            (row-Leads "damageAssessmentPending"
                                                            "confirmDamageAssessment" refl)
                                                            (λ _.
                                                            (if_cases Leads
                                                            (str_eq stage
                                                            "reconConfirmationPending")
                                                            (row-Leads "reconConfirmationPending"
                                                            "confirmTargetDestroyed" refl)
                                                            (λ _.
                                                            (if_cases Leads
                                                            (str_eq stage "targetDestroyed")
                                                            (row-Leads "targetDestroyed" "withdraw"
                                                            refl)
                                                            (λ _.
                                                            (if_cases Leads
                                                            (str_eq stage "withdrawPending")
                                                            (row-Leads "withdrawPending"
                                                            "markReturning" refl)
                                                            (λ _. (λ h.
                                                            cc)))))))))))))))))))))))))))))))))))
