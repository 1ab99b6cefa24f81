-- ===== src/Bus/Graph.antt =====
-- `MessageBus::canCommunicate`: a breadth-first search over the directed, range-limited graph of
-- the active units of one side.
pub mod Scan
pub mod Search
use wargame.Prelude.{
  ℕ, zero, suc, Bool, true, false, not, ◌&&◌, ◌||◌, String, List, [], ◌∷◌, ◌++◌, Option, none, some,
  str_eq, str_ne, is_empty, contains, length, if◌then◌else◌,
}
use wargame.Prelude.Qt.{Qt, max_double}
use wargame.Bus.Registry.{Reg, Units, find}

-- The queue and the visited set, or the return from inside the loop.
pub data Frontier : Type 0 where
  found : Frontier
  going : List String → List String → Frontier

module _ (q : Qt) (side b : String) where
  -- `std::hypot(dx, dy) > std::max(0.0, current.commRange)`.
  unfoldable pub is_out_of_range : Reg q → Reg q → Bool
  is_out_of_range current candidate =
      q.lt (max_double q q.zero current.comm_range)
        (q.hypot (q.sub current.x candidate.x) (q.sub current.y candidate.y))

  -- The tests that a candidate passes, apart from the visited set.
  unfoldable pub is_linked : Reg q → Reg q → Bool
  is_linked current candidate =
      candidate.active && str_eq candidate.side side && not (is_out_of_range current candidate)

  -- The body of the loop over the candidates.
  unfoldable pub offer : Reg q → String × Reg q → Frontier → Frontier
  offer current (id, c) found = found
  offer current (id, c) (going pending visited) =
      if contains visited id || not (is_linked current c)
      then going pending visited
      else if str_eq id b
      then found
      else going (pending ++ id ∷ []) (id ∷ visited)

  unfoldable pub scan : Reg q → Units q → Frontier → Frontier
  scan current [] s = s
  scan current (u ∷ us) s = scan current us (offer current u s)

  -- One round of the `while` loop, with `id` taken from the queue.
  unfoldable pub expand : Units q → String → List String → List String → Frontier
  expand us id pending visited = elim (find q us id) [
    | none ↦ going pending visited
    | some current ↦
        if current.active then scan current us (going pending visited) else going pending visited
  ]

  -- `none` means that the fuel ran out.
  unfoldable pub search_loop : ℕ → Units q → Frontier → Option Bool
  search_loop fuel us found = some true
  search_loop fuel us (going [] visited) = some false
  search_loop zero us (going (id ∷ pending) visited) = none
  search_loop (suc fuel) us (going (id ∷ pending) visited) =
      search_loop fuel us (expand us id pending visited)

module _ (q : Qt) where
  -- The two ends, where both are registered, active and on one named side.
  unfoldable pub ends : Units q → String → String → Option (Reg q × Reg q)
  ends us a b = elim (find q us a) [
    | none ↦ none
    | some ra ↦ elim (find q us b) [
      | none ↦ none
      | some rb ↦
          if not ra.active
            || not rb.active
            || is_empty ra.side
            || is_empty rb.side
            || str_ne ra.side rb.side
          then none
          else some (ra, rb)
    ]
  ]

  unfoldable pub can_communicate : Units q → String → String → Option Bool
  can_communicate us a b = elim (ends us a b) [
    | none ↦ some false
    | some (ra, rb) ↦
        let searched = search_loop q ra.side b (suc (length us)) us (going (a ∷ []) (a ∷ [])) in
        if str_eq a b then some true else searched
  ]
