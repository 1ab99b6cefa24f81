-- ===== src/Bus/Graph/Scan.antt =====
-- What the loop over the candidates does to the queue and the visited set.
use wargame.Prelude.{
  ℕ, suc, ◌+◌, ◌≤◌, ◌≡◌, refl, true, false, String, List, [], ◌∷◌, ◌⊎◌, inl, inr, str_eq,
  str_eq_iff, contains, contains-append, length, length-append, arith, if◌then◌else◌, Bool-cases,
  sym,
}
use wargame.Prelude.Qt.{Qt}
use wargame.Bus.Registry.{Reg, Units}
use wargame.Bus.Graph.{Frontier, found, going, is_linked, offer, scan}

module _ (q : Qt) (side b : String) where
  -- Some candidate called `x` is linked to `current`.
  abbrev pub Offers : Reg q → Units q → String → Type 0
  Offers current [] x = ⊥
  Offers current ((j, c) ∷ us) x =
      ((j ≡ x) × (is_linked q side b current c ≡ true)) ⊎ Offers current us x

  -- The units that are not visited.
  abbrev pub unvisited : Units q → List String → ℕ
  unvisited [] visited = 0
  unvisited ((j, c) ∷ us) visited =
      let rest = unvisited us visited in if contains visited j then rest else suc rest

  -- What is so of the queue and the visited set after candidates of which `O` says who is linked.
  pub record Grown (O : String → Type 0) (p v p' v' : List String) : Type 0 where
    pub kept : (x : String) → contains v x ≡ true → contains v' x ≡ true
    pub kept_queue : (x : String) → contains p x ≡ true → contains p' x ≡ true
    pub fresh : (x : String) → contains v' x ≡ true → (contains v x ≡ true) ⊎ (contains p' x ≡ true)
    pub queued :
        (x : String) → contains p' x ≡ true → (contains p x ≡ true) ⊎ (contains v' x ≡ true)
    pub sound : (x : String) → contains v' x ≡ true → (contains v x ≡ true) ⊎ O x
    pub complete : (x : String) → O x → contains v' x ≡ true
    pub avoids : contains v b ≡ false → contains v' b ≡ false

  -- The result of a scan: the target is among the linked candidates, or none of them is.
  abbrev pub Scanned : (String → Type 0) → List String → List String → Frontier → Type 0
  Scanned O p v found = O b
  Scanned O p v (going p' v') = Grown O p v p' v'

  offer-Scanned :
      (current : Reg q) (id : String) (c : Reg q) (p v : List String)
      → Scanned
          (λ x. (id ≡ x) × (is_linked q side b current c ≡ true))
          p
          v
          (offer q side b current (id, c) (going p v))
  unfolding offer
  offer-Scanned current id c p v = elim (Bool-cases (contains v id)) [
    | inl old ↦ rw old (record {
      kept = λ x h. h;
      kept_queue = λ x h. h;
      fresh = λ x h. inl h;
      queued = λ x h. inl h;
      sound = λ x h. inl h;
      complete = λ x o. rw o.0 at old;
      avoids = λ h. h;
    })
    | inr new ↦ elim (Bool-cases (is_linked q side b current c)) [
      | inl link ↦ elim (Bool-cases (str_eq id b)) [
        | inl same ↦ rw (new, link, same) ((str_eq_iff id b).0 same, refl)
        | inr other ↦
            rw (new, link, other)
              (record {
                kept = λ x h. ground (arith, h);
                kept_queue = λ x h. ground (arith, h, contains-append p (id ∷ []) x);
                fresh = λ x h. ground (arith, h, contains-append p (id ∷ []) x);
                queued = λ x h. ground (arith, h, contains-append p (id ∷ []) x);
                sound = λ x h. ground (arith, h, str_eq_iff id x);
                complete = λ x o. ground (arith, o.0, str_eq_iff id x);
                avoids = λ h. ground (arith, h);
              })
      ]
      | inr no_link ↦
          rw (new, no_link)
            (record {
              kept = λ x h. h;
              kept_queue = λ x h. h;
              fresh = λ x h. inl h;
              queued = λ x h. inl h;
              sound = λ x h. inl h;
              complete = λ x o. absurd (ground (arith, o.1));
              avoids = λ h. h;
            })
    ]
  ]

  Grown-compose :
      {O₁ O₂ : String → Type 0} (p v p₁ v₁ p₂ v₂ : List String)
      → Grown O₁ p v p₁ v₁
      → Grown O₂ p₁ v₁ p₂ v₂
      → Grown (λ x. O₁ x ⊎ O₂ x) p v p₂ v₂
  Grown-compose p v p₁ v₁ p₂ v₂ g h = record {
    kept = λ x k. h.kept x (g.kept x k);
    kept_queue = λ x k. h.kept_queue x (g.kept_queue x k);
    fresh = λ x k. ground (arith, h.fresh x k, g.fresh x, h.kept_queue x);
    queued = λ x k. ground (arith, h.queued x k, g.queued x, h.kept x);
    sound = λ x k. ground (arith, h.sound x k, g.sound x);
    complete = λ x o. elim o [ inl o ↦ h.kept x (g.complete x o) | inr o ↦ h.complete x o ];
    avoids = λ k. h.avoids (g.avoids k);
  }

  Scanned-compose :
      (O₁ O₂ : String → Type 0) (p v p₁ v₁ : List String) (s : Frontier)
      → Grown O₁ p v p₁ v₁
      → Scanned O₂ p₁ v₁ s
      → Scanned (λ x. O₁ x ⊎ O₂ x) p v s
  Scanned-compose O₁ O₂ p v p₁ v₁ found g o = inr o
  Scanned-compose O₁ O₂ p v p₁ v₁ (going p₂ v₂) g h = Grown-compose p v p₁ v₁ p₂ v₂ g h

  scan-found : (current : Reg q) (us : Units q) → scan q side b current us found ≡ found
  unfolding scan offer
  scan-found current [] = refl
  scan-found current (u ∷ us) = scan-found current us

  abbrev Here : Reg q → String → Reg q → String → Type 0
  Here current id c x = (id ≡ x) × (is_linked q side b current c ≡ true)

  scan_on :
      (current : Reg q) (id : String) (c : Reg q) (us : Units q) (p v : List String) (s : Frontier)
      → Scanned (Here current id c) p v s
      → ((p₁ v₁ : List String)
          → Scanned (Offers current us) p₁ v₁ (scan q side b current us (going p₁ v₁)))
      → Scanned (Offers current ((id, c) ∷ us)) p v (scan q side b current us s)
  scan_on current id c us p v found o rest = rw (scan-found current us) (inl o)
  scan_on current id c us p v (going p₁ v₁) g rest =
      Scanned-compose (Here current id c) (Offers current us) p v p₁ v₁
        (scan q side b current us (going p₁ v₁)) g (rest p₁ v₁)

  pub scan-Scanned :
      (current : Reg q) (us : Units q) (p v : List String)
      → Scanned (Offers current us) p v (scan q side b current us (going p v))
  unfolding scan
  scan-Scanned current [] p v = record {
    kept = λ x h. h;
    kept_queue = λ x h. h;
    fresh = λ x h. inl h;
    queued = λ x h. inl h;
    sound = λ x h. inl h;
    complete = λ x o. absurd o;
    avoids = λ h. h;
  }
  scan-Scanned current ((id, c) ∷ us) p v =
      scan_on current id c us p v (offer q side b current (id, c) (going p v))
        (offer-Scanned current id c p v) (scan-Scanned current us)

  -- What the search has left to do: the queue and the units that are not visited.
  abbrev pub left : Units q → Frontier → ℕ
  left us found = 0
  left us (going pending visited) = length pending + unvisited us visited

  abbrev HasKey : Units q → String → Type 0
  HasKey [] x = ⊥
  HasKey ((j, c) ∷ us) x = (j ≡ x) ⊎ HasKey us x

  unvisited-le :
      (us : Units q) (x : String) (v : List String) → unvisited us (x ∷ v) ≤ unvisited us v
  unvisited-le [] x v = omega arith
  unvisited-le ((j, c) ∷ us) x v = ground (arith, unvisited-le us x v)

  unvisited-lt :
      (us : Units q) (x : String) (v : List String)
      → HasKey us x
      → contains v x ≡ false
      → suc (unvisited us (x ∷ v)) ≤ unvisited us v
  unvisited-lt [] x v k new = absurd k
  unvisited-lt ((j, c) ∷ us) x v (inl e) new =
      ground (arith, unvisited-le us x v, str_eq_iff x j, sym e, rw (sym e) at new)
  unvisited-lt ((j, c) ∷ us) x v (inr k) new = ground (arith, unvisited-lt us x v k new)

  offer-left :
      (us : Units q) (current : Reg q) (id : String) (c : Reg q) (s : Frontier)
      → HasKey us id
      → left us (offer q side b current (id, c) s) ≤ left us s
  unfolding offer
  offer-left us current id c found k = omega arith
  offer-left us current id c (going p v) k =
      ground (arith, unvisited-lt us id v k, length-append p (id ∷ []))

  scan-left :
      (us : Units q) (current : Reg q) (more : Units q) (s : Frontier)
      → ((x : String) → HasKey more x → HasKey us x)
      → left us (scan q side b current more s) ≤ left us s
  unfolding scan
  scan-left us current [] s k = omega arith
  scan-left us current ((id, c) ∷ more) s k = omega (
    arith,
    scan-left us current more (offer q side b current (id, c) s) (λ x h. k x (inr h)),
    offer-left us current id c s (k id (inl refl)),
  )

  -- One walk over the candidates never adds work.
  pub scan_all-left :
      (us : Units q) (current : Reg q) (s : Frontier)
      → left us (scan q side b current us s) ≤ left us s
  scan_all-left us current s = scan-left us current us s (λ x h. h)
