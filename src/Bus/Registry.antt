-- ===== src/Bus/Registry.antt =====
-- The registered units of `MessageBus`: `m_units`, in the order in which the table is walked.
use wargame.Prelude.{
  Bool, true, false, not, String, List, [], ◌∷◌, ◌++◌, Option, none, some, str_eq, is_empty,
  if◌then◌else◌,
}
use wargame.Prelude.Qt.{Qt, max_double}

pub record Reg (q : Qt) : Type 0 where
  pub x : q.Double
  pub y : q.Double
  pub comm_range : q.Double
  pub side : String
  pub is_cp : Bool
  pub active : Bool

abbrev pub Units : Qt → Type 0
Units q = List (String × Reg q)

module _ (q : Qt) where
  unfoldable pub find : Units q → String → Option (Reg q)
  find [] id = none
  find ((j, r) ∷ us) id = if str_eq j id then some r else find us id

  -- `m_units[id] = f(m_units[id])`, where the id is registered.
  unfoldable pub update : (Reg q → Reg q) → Units q → String → Units q
  update f [] id = []
  update f ((j, r) ∷ us) id = if str_eq j id then (j, f r) ∷ us else (j, r) ∷ update f us id

  new_reg : Reg q
  new_reg = record {
    x = q.zero;
    y = q.zero;
    comm_range = q.zero;
    side = "";
    is_cp = false;
    active = true;
  }

  -- `m_units.try_emplace(unitId)`.
  unfoldable pub register : Units q → String → Units q
  unfolding new_reg
  register us id = elim (find us id) [ none ↦ us ++ (id, new_reg) ∷ [] | some r ↦ us ]

  unfoldable pub unregister : Units q → String → Units q
  unregister [] id = []
  unregister ((j, r) ∷ us) id = if str_eq j id then unregister us id else (j, r) ∷ unregister us id

  unfoldable pub update_unit_position :
      Units q → String → q.Double → q.Double → q.Double → String → Units q
  update_unit_position us id x y comm_range side =
      update
        (λ r. record r {
          x = x;
          y = y;
          comm_range = max_double q q.zero comm_range;
          side = if not (is_empty side) then side else r.side;
        })
        us id

  unfoldable pub set_unit_active : Units q → String → Bool → Units q
  set_unit_active us id active = update (λ r. record r { active = active }) us id

  unfoldable pub set_unit_command_post : Units q → String → Bool → Units q
  set_unit_command_post us id is_cp = update (λ r. record r { is_cp = is_cp }) us id

  unfoldable pub update_unit_side : Units q → String → String → Units q
  update_unit_side us id side = update (λ r. record r { side = side }) us id

  unfoldable pub unit_side : Units q → String → String
  unit_side us id = elim (find us id) [ none ↦ "" | some r ↦ r.side ]
