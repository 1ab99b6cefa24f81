-- ===== src/Bus/Graph/Search.antt =====
-- The whole search of `canCommunicate`: it ends, and it finds exactly the units that are reachable.
use wargame.Prelude.{
  ℕ, zero, suc, ◌≤◌, ◌≡◌, refl, Bool, true, false, String, List, [], ◌∷◌, Option, none, some, ◌⊎◌,
  inl, inr, str_eq, str_eq_iff, contains, length, arith, Bool-cases, if◌then◌else◌, sym, subst,
}
use wargame.Prelude.Qt.{Qt}
use wargame.Bus.Registry.{Reg, Units, find}
use wargame.Bus.Graph.{Frontier, found, going, scan, expand, search_loop, ends, can_communicate}
use wargame.Bus.Graph.Scan.{Offers, unvisited, Scanned, scan-Scanned, left, scan_all-left}

module _ (q : Qt) (side b : String) (us : Units q) where
  -- `u` is registered and active, and some active unit called `x` of the side is in its range.
  abbrev pub Link : String → String → Type 0
  Link u x = (r : Reg q) × (find q us u ≡ some r) × (r.active ≡ true) × Offers q side b r us x

  -- The units that a chain of links from `a` reaches.
  pub data Reach (a : String) : String → Type 0 where
    here : Reach a a
    hop : {u x : String} → Reach a u → Link u x → Reach a x

  record Searching (a : String) (p v : List String) : Type 0 where
    seen : (x : String) → contains p x ≡ true → contains v x ≡ true
    start : contains v a ≡ true
    avoids : contains v b ≡ false
    reached : (x : String) → contains v x ≡ true → Reach a x
    closed :
        (u : String)
        → contains v u ≡ true
        → (contains p u ≡ true) ⊎ ((x : String) → Link u x → contains v x ≡ true)

  abbrev State : String → Frontier → Type 0
  State a found = Reach a b
  State a (going p v) = Searching a p v

  -- Taking a unit without links from the queue.
  pop-Searching :
      (a id : String) (p v : List String)
      → Searching a (id ∷ p) v
      → ((x : String) → ¬ Link id x)
      → Searching a p v
  pop-Searching a id p v s unlinked = record {
    seen = λ x h. s.seen x (ground (arith, h));
    start = s.start;
    avoids = s.avoids;
    reached = s.reached;
    closed = λ u h. elim (s.closed u h) [
      | inl k ↦ elim (Bool-cases (str_eq id u)) [
        | inl e ↦ inr (λ x l. absurd (unlinked x (rw (sym ((str_eq_iff id u).0 e)) at l)))
        | inr e ↦ inl (rw e at k)
      ]
      | inr k ↦ inr k
    ];
  }

  linked_from :
      (u x : String) (r : Reg q) → find q us u ≡ some r → Link u x → Offers q side b r us x
  linked_from u x r e (r', e', act, o) = let p : r' ≡ r = cc in rw p at o

  scan-State :
      (a id : String) (p v : List String) (r : Reg q)
      → Searching a (id ∷ p) v
      → find q us id ≡ some r
      → r.active ≡ true
      → (s : Frontier) → Scanned q side b (Offers q side b r us) p v s
      → State a s
  scan-State a id p v r s e act found o =
      hop (s.reached id (s.seen id (ground (arith, str_eq_iff id id)))) (r, e, act, o)
  scan-State a id p v r s e act (going p' v') g = record {
    seen =
        λ x h. elim (g.queued x h) [ inl k ↦ g.kept x (s.seen x (ground (arith, k))) | inr k ↦ k ];
    start = g.kept a s.start;
    avoids = g.avoids s.avoids;
    reached = λ x h. elim (g.sound x h) [
      | inl k ↦ s.reached x k
      | inr o ↦ hop (s.reached id (s.seen id (ground (arith, str_eq_iff id id)))) (r, e, act, o)
    ];
    closed = λ u h. elim (g.fresh u h) [
      | inl k ↦ elim (s.closed u k) [
        | inl pending ↦ elim (Bool-cases (str_eq id u)) [
          | inl same ↦ inr (λ x l.
              g.complete x (linked_from id x r e (rw (sym ((str_eq_iff id u).0 same)) at l)))
          | inr other ↦ inl (g.kept_queue u (rw other at pending))
        ]
        | inr done ↦ inr (λ x l. g.kept x (done x l))
      ]
      | inr k ↦ inl k
    ];
  }

  -- What a round leaves, of the frontier before it.
  abbrev Rounded : String → List String → List String → Frontier → Type 0
  Rounded a p v s = State a s × (left q side b us s ≤ left q side b us (going p v))

  expand-none :
      (id : String) (p v : List String)
      → find q us id ≡ none
      → expand q side b us id p v ≡ going p v
  unfolding expand
  expand-none id p v e = rw (expand, e)

  expand-some :
      (id : String) (p v : List String) (r : Reg q)
      → find q us id ≡ some r
      → expand q side b us id p v ≡ (if r.active then scan q side b r us (going p v) else going p v)
  unfolding expand
  expand-some id p v r e = rw (expand, e)

  unlinked : (u x : String) (r : Reg q) → find q us u ≡ some r → r.active ≡ false → ¬ Link u x
  unlinked u x r e idle (r', e', act, o) = let p : r' ≡ r = cc in cc (p, act, idle)

  expand_active :
      (a id : String) (p v : List String)
      → Searching a (id ∷ p) v
      → (r : Reg q) → find q us id ≡ some r
      → (act : Bool) → r.active ≡ act
      → Rounded a p v (if act then scan q side b r us (going p v) else going p v)
  expand_active a id p v s r e true act = (
    scan-State a id p v r s e act (scan q side b r us (going p v)) (scan-Scanned q side b r us p v),
    scan_all-left q side b us r (going p v),
  )
  expand_active a id p v s r e false idle =
      (pop-Searching a id p v s (λ x. unlinked id x r e idle), omega arith)

  expand-Rounded :
      (a id : String) (p v : List String)
      → Searching a (id ∷ p) v
      → (m : Option (Reg q)) → find q us id ≡ m
      → Rounded a p v (expand q side b us id p v)
  expand-Rounded a id p v s none e =
      subst (λ t. Rounded a p v t) (sym (expand-none id p v e))
        (pop-Searching a id p v s (λ x l. cc (e, l.1)), omega arith)
  expand-Rounded a id p v s (some r) e =
      subst (λ t. Rounded a p v t) (sym (expand-some id p v r e))
        (expand_active a id p v s r e r.active refl)

  Searching-complete :
      (a : String) (v : List String)
      → Searching a [] v
      → (x : String) → Reach a x
      → contains v x ≡ true
  Searching-complete a v s x here = s.start
  Searching-complete a v s x (hop {u} r l) = elim (s.closed u (Searching-complete a v s u r)) [
    | inl k ↦ absurd (ground (arith, k))
    | inr k ↦ k x l
  ]

  -- With fuel for the work left, the loop ends and says whether the target is reachable.
  abbrev pub Answers : String → Option Bool → Type 0
  Answers a o = ((o ≡ some true) × Reach a b) ⊎ ((o ≡ some false) × ¬ Reach a b)

  search_loop-Answers :
      (fuel : ℕ) (a : String) (s : Frontier)
      → State a s
      → left q side b us s ≤ fuel
      → Answers a (search_loop q side b fuel us s)
  unfolding search_loop
  search_loop-Answers fuel a found s h = inl (refl, s)
  search_loop-Answers fuel a (going [] v) s h =
      inr (refl, λ r. cc (s.avoids, Searching-complete a v s b r))
  search_loop-Answers zero a (going (id ∷ p) v) s h = absurd (omega arith)
  search_loop-Answers (suc fuel) a (going (id ∷ p) v) s h =
      let next = expand-Rounded a id p v s (find q us id) refl in
      search_loop-Answers fuel a (expand q side b us id p v) next.0 (omega (arith, next.1))

module _ (q : Qt) where
  search-start :
      (side a b : String) (us : Units q)
      → str_eq a b ≡ false
      → Searching q side b us a (a ∷ []) (a ∷ [])
  search-start side a b us differ = record {
    seen = λ x h. h;
    start = ground (arith, str_eq_iff a a);
    avoids = ground (arith, differ);
    reached = λ x h. rw (sym ((str_eq_iff a x).0 (ground (arith, h)))) here;
    closed = λ u h. inl h;
  }

  unvisited-length :
      (side b : String) (us : Units q) (v : List String) → unvisited q side b us v ≤ length us
  unvisited-length side b [] v = omega arith
  unvisited-length side b ((j, c) ∷ us) v = ground (arith, unvisited-length side b us v)

  searched-Answers :
      (side a b : String) (us : Units q)
      → Answers q side b us a (
          if str_eq a b
          then some true
          else search_loop q side b (suc (length us)) us (going (a ∷ []) (a ∷ [])))
  searched-Answers side a b us = elim (Bool-cases (str_eq a b)) [
    | inl same ↦ rw same (inl (refl, rw ((str_eq_iff a b).0 same) here))
    | inr differ ↦ rw differ (
        search_loop-Answers q side b us (suc (length us)) a (going (a ∷ []) (a ∷ []))
          (search-start side a b us differ) (omega (arith, unvisited-length side b us (a ∷ []))))
  ]

  ends-cases :
      (us : Units q) (a b : String) (m : Option (Reg q × Reg q))
      → ends q us a b ≡ m
      → ((m ≡ none) × (can_communicate q us a b ≡ some false))
        ⊎ ((ra : Reg q) × (rb : Reg q) × (m ≡ some (ra, rb))
            × Answers q ra.side b us a (can_communicate q us a b))
  unfolding can_communicate
  ends-cases us a b none e = inl (refl, rw (can_communicate, e))
  ends-cases us a b (some (ra, rb)) e =
      inr (ra, rb, refl, rw (can_communicate, e) (searched-Answers ra.side a b us))

  -- `canCommunicate` always answers. Without two registered, active ends on one named side the
  -- answer is no; otherwise it is yes exactly when a chain of links leads from `a` to `b`.
  pub can_communicate_lem :
      (us : Units q) (a b : String)
      → ((ends q us a b ≡ none) × (can_communicate q us a b ≡ some false))
        ⊎ ((ra : Reg q) × (rb : Reg q) × (ends q us a b ≡ some (ra, rb))
            × Answers q ra.side b us a (can_communicate q us a b))
  can_communicate_lem us a b = ends-cases us a b (ends q us a b) refl
