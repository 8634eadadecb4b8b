-- ===== src/Container/ListState.antt =====
-- `ListNode` and `ListState` of dev/lsf/container/detail/impl_bidirectional_list.hpp: a linked list
-- and the list of its unused nodes, both rings of positions in one block of nodes. The block is a
-- function from positions to nodes; `SizeType` is `size_t`, of 64 bits.
pub mod Links
pub mod Wf
pub mod Init
pub mod Insert
pub mod Free
use lsf.Prelude.{
  ℕ, zero, suc, ◌+◌, ◌-◌, ◌%◌, ◌^◌, ◌*◌, ◌/◌, Bool, true, false, ◌||◌, Option, none, some, ◌==◌,
  leb, if◌then◌else◌, update, add64, sub64,
}

-- `data` of the source is `value` here.
pub record Node (A : Type 0) : Type 0 where
  pub prev_pos : ℕ
  pub next_pos : ℕ
  pub value : A
  pub is_use : Bool

abbrev pub Nodes : Type 0 → Type 0
Nodes A = ℕ → Node A

-- The members of `ListState` and the nodes that follow it in the storage.
pub record ListState (A : Type 0) : Type 0 where
  pub size : ℕ
  pub max_size : ℕ
  pub elem_byte_size : ℕ
  pub empty_head_pos : ℕ
  pub head_pos : ℕ
  pub nodes : Nodes A

-- What the compiler decides: `sizeof` of the state, of a node and of an element.
pub record Layout : Type 0 where
  pub state_bytes : ℕ
  pub node_bytes : ℕ
  pub elem_bytes : ℕ

abbrev pub endpos : ℕ
endpos = 0

module _ {A : Type 0} where
  abbrev pub next : Nodes A → ℕ → ℕ
  next h pos = (h pos).next_pos

  abbrev pub prev : Nodes A → ℕ → ℕ
  prev h pos = (h pos).prev_pos

  abbrev pub used : Nodes A → ℕ → Bool
  used h pos = (h pos).is_use

  abbrev pub datum : Nodes A → ℕ → A
  datum h pos = (h pos).value

  pub set_next : ℕ → ℕ → Nodes A → Nodes A
  set_next pos to h = update h pos (record (h pos) { next_pos = to })

  pub set_prev : ℕ → ℕ → Nodes A → Nodes A
  set_prev pos to h = update h pos (record (h pos) { prev_pos = to })

  pub set_is_use : ℕ → Bool → Nodes A → Nodes A
  set_is_use pos b h = update h pos (record (h pos) { is_use = b })

  -- Placement new at the data of a node.
  unfoldable pub set_data : ℕ → A → Nodes A → Nodes A
  set_data pos v h = update h pos (record (h pos) { value = v })

  -- `for (pos = 1; pos < _max_size; pos++)`, by the rounds left.
  unfoldable pub make_empty_list : ℕ → ℕ → Nodes A → Nodes A
  unfolding set_next set_prev set_is_use
  make_empty_list zero pos h = h
  make_empty_list (suc k) pos h =
      make_empty_list k (pos + 1)
        (set_prev pos (sub64 pos 1) (set_next pos (add64 pos 1) (set_is_use pos false h)))

  -- The end node is a ring of its own.
  unfoldable pub make_end : Nodes A → Nodes A
  unfolding set_next set_prev set_is_use
  make_end raw = set_prev endpos endpos (set_next endpos endpos (set_is_use endpos false raw))

  unfoldable pub make_lists : ℕ → Nodes A → Nodes A
  unfolding set_next set_prev
  make_lists max_size raw =
      let h = make_empty_list (max_size - 1) 1 (make_end raw) in
      set_next (sub64 max_size 1) 1 (set_prev 1 (sub64 max_size 1) h)

  -- `raw` is what the storage holds before.
  unfoldable pub init : Layout → Nodes A → ℕ → ListState A
  init layout raw byte_size =
      let max_size = sub64 byte_size layout.state_bytes / layout.node_bytes in
      record {
        size = 0;
        max_size = max_size;
        elem_byte_size = layout.elem_bytes;
        empty_head_pos = 1;
        head_pos = 0;
        nodes = make_lists max_size raw;
      }

  -- Takes the head `pos` off the ring of unused nodes; the result is the new head.
  unfoldable pub take_empty : ℕ → Nodes A → ℕ × Nodes A
  unfolding set_next set_prev
  take_empty pos h =
      if next h pos == pos
      then (endpos, h)
      else let h1 = set_prev (next h pos) (prev h pos) h in
        let h2 = set_next (prev h1 pos) (next h1 pos) h1 in (next h2 pos, h2)

  -- Links `pos` in before `insert_pos`.
  unfoldable pub link_before : ℕ → ℕ → Nodes A → Nodes A
  unfolding set_next set_prev set_is_use
  link_before pos insert_pos h =
      let h1 = set_next pos insert_pos (set_is_use pos true h) in
      let h2 = set_prev pos (prev h1 insert_pos) h1 in
      let h3 = set_prev (next h2 pos) pos h2 in set_next (prev h3 pos) pos h3

  unfoldable pub get_new_node_and_insert : ListState A → ℕ → ℕ × ListState A
  get_new_node_and_insert s insert_pos =
      let pos = s.empty_head_pos in
      let (empty_head, h) = take_empty pos s.nodes in
      (
        pos,
        record s {
          size = add64 s.size 1;
          empty_head_pos = empty_head;
          head_pos =
              if (s.head_pos == insert_pos) || (s.head_pos == endpos) then pos else s.head_pos;
          nodes = link_before pos insert_pos h;
        },
      )

  -- Takes `pos` out of the list.
  unfoldable pub unlink : ℕ → Nodes A → Nodes A
  unfolding set_next set_prev set_is_use
  unlink pos h =
      let h1 = set_prev (next h pos) (prev h pos) h in
      let h2 = set_next (prev h1 pos) (next h1 pos) h1 in set_is_use pos false h2

  -- Puts `pos` at the tail of the ring of unused nodes with the head `empty_head`.
  unfoldable pub give_empty : ℕ → ℕ → Nodes A → ℕ × Nodes A
  unfolding set_next set_prev set_is_use
  give_empty pos empty_head h =
      if empty_head == endpos
      then (pos, set_prev pos pos (set_next pos pos (set_is_use pos false h)))
      else let h1 = set_next pos empty_head (set_is_use pos false h) in
        let h2 = set_prev pos (prev h1 empty_head) h1 in
        let h3 = set_prev (next h2 pos) pos h2 in (empty_head, set_next (prev h3 pos) pos h3)

  unfoldable pub free_node : ListState A → ℕ → ListState A
  free_node s pos =
      let h = unlink pos s.nodes in
      let (empty_head, h') = give_empty pos s.empty_head_pos h in
      record s {
        size = sub64 s.size 1;
        empty_head_pos = empty_head;
        head_pos = if s.head_pos == pos then next h pos else s.head_pos;
        nodes = h';
      }

  unfoldable pub capacity : ListState A → ℕ
  capacity s = sub64 s.max_size 1

  unfoldable pub full : ListState A → Bool
  full s = s.size == sub64 s.max_size 1

  unfoldable pub empty : ListState A → Bool
  empty s = s.size == 0

  -- `nullptr` is `none`.
  unfoldable pub get_data_ptr : ListState A → ℕ → Option A
  get_data_ptr s pos =
      if leb s.max_size pos
      then none
      else (if used s.nodes pos then some (datum s.nodes pos) else none)

unfoldable pub calc_byte_size : Layout → ℕ → ℕ
calc_byte_size layout size =
    add64 (((size + 1) % 2 ^ 64 * layout.node_bytes) % 2 ^ 64) layout.state_bytes
