-- ===== src/Container/OrderedMap.antt =====
-- `MapData` and `Map` of dev/lsf/container/map.hpp, and `Set` of dev/lsf/container/set.hpp, over the
-- tree state. An iterator is a position, NPOS the end. `none` means that a search or a fixup ran out
-- of fuel; the destructor calls do not change the state.
use lsf.Prelude.{ℕ, Bool, true, false, Option, none, some, ◌==◌, if◌then◌else◌}
use lsf.Container.RedBlackTree.{TreeState, npos, set_data, full, empty}
use lsf.Container.RedBlackTree.Find.{Order, find_node}
use lsf.Container.RedBlackTree.Fixup.{get_new_node_and_insert}
use lsf.Container.RedBlackTree.Erase.{erase_node}

pub record MapData (K V : Type 0) : Type 0 where
  pub key : K
  pub value : V

-- The operators of `MapData` compare keys.
abbrev pub by_key : {K V : Type 0} → Order K → Order (MapData K V)
by_key o = record { same = λ a b. o.same a.key b.key; less = λ a b. o.less a.key b.key }

module _ {A : Type 0} (o : Order A) where
  -- `Set::Insert`; `stored` is what is constructed at the position found for `val`.
  unfoldable pub insert_stored : A → A → TreeState A → Option (Bool × TreeState A)
  insert_stored val stored t =
      if full t then some (false, t) else elim (get_new_node_and_insert o val t) [
        | none ↦ none
        | some (pos, t1) ↦
            some (if pos == npos then (false, t1) else (true, set_data pos stored t1))
      ]

  unfoldable pub set_insert : A → TreeState A → Option (Bool × TreeState A)
  set_insert val t = insert_stored val val t

  unfoldable pub erase : A → TreeState A → Option (Bool × TreeState A)
  erase val t = if empty t then some (false, t) else elim (find_node o t val) [
    | none ↦ none
    | some (pos, parent) ↦
        if pos == npos
        then some (false, t)
        else elim (erase_node pos parent t) [ none ↦ none | some t1 ↦ some (true, t1) ]
  ]

  unfoldable pub find : A → TreeState A → Option ℕ
  find val t = elim (find_node o t val) [ none ↦ none | some (pos, _) ↦ some pos ]

module _ {K V : Type 0} (o : Order K) where
  -- `MapData(key)` has a default value.
  unfoldable pub map_insert :
      V → K → V → TreeState (MapData K V) → Option (Bool × TreeState (MapData K V))
  map_insert default k v t =
      insert_stored (by_key o) (record { key = k; value = default }) (record { key = k; value = v })
        t
