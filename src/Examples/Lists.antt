-- ===== src/Examples/Lists.antt =====
-- Lists and pools of numbers with room for three elements.
use lsf.Prelude.{
  ℕ, ◌+◌, ◌≡◌, ◌≢◌, refl, true, List, [], ◌∷◌, arith, ◌==◌, mem, if◌then◌else◌, none, some,
}
use lsf.Container.ListState.{
  ListState, Layout, Nodes, init, calc_byte_size, datum, free_node, get_new_node_and_insert,
  get_data_ptr, set_data, link_before, take_empty, make_lists, make_empty_list, make_end,
}
use lsf.Container.ListState.Wf.{Wf, contents}
use lsf.Container.ListState.Init.{init-Wf}
use lsf.Container.ListState.Insert.{insert-Wf}
use lsf.Container.ListState.Free.{free-Wf}
use lsf.Container.LinkedList.{begin, end, get_back, put, pop_back, insert, erase}
use lsf.Container.LinkedList.Holds.{Holds, Adds, put-Wf, put-Holds}
use lsf.Container.LinkedList.Sequence.{insert-Adds, erase-Holds, init-calc_byte_size}
use lsf.Container.LinkedList.PopBack.{pop_back-end}
use lsf.Container.ListState.Links.{Links}
use lsf.Container.ObjectPool.{ok, malloc, free, get_ptr}
use lsf.Container.ObjectPool.Blocks.{Valid, malloc-ok, free-ok}

abbrev layout : Layout
layout = record { state_bytes = 40; node_bytes = 32; elem_bytes = 8 }

abbrev zeros : Nodes ℕ
zeros = λ _. record { prev_pos = 0; next_pos = 0; value = 0; is_use = true }

abbrev fresh : ListState ℕ
fresh = init layout zeros (calc_byte_size layout 3)

init-calc_byte_size_example : Holds fresh 3 []
init-calc_byte_size_example =
    init-calc_byte_size layout zeros 3 (omega arith) (omega arith) (omega arith)

fresh-Wf : Wf fresh [] (1 ∷ 2 ∷ 3 ∷ [])
unfolding calc_byte_size
fresh-Wf = init-Wf layout zeros (calc_byte_size layout 3) 2 refl (omega arith)

fresh-room : fresh.max_size ≡ 4
unfolding calc_byte_size init
fresh-room = refl

-- The list with 7, and the list with 7 and 9.
abbrev one : ListState ℕ
one = (put fresh 0 7).1

one-Holds : Holds one 3 (7 ∷ [])
one-Holds = put-Holds fresh 3 [] [] 1 (2 ∷ 3 ∷ []) 7 fresh-Wf fresh-room

one-Wf : Wf one (1 ∷ []) (2 ∷ 3 ∷ [])
one-Wf = put-Wf fresh [] [] 1 (2 ∷ 3 ∷ []) 7 fresh-Wf

one-room : one.max_size ≡ 4
unfolding calc_byte_size init get_new_node_and_insert
one-room = refl

insert-Wf_example :
    ((get_new_node_and_insert one 1).0 ≡ 2)
    × Wf (get_new_node_and_insert one 1).1 (2 ∷ 1 ∷ []) (3 ∷ [])
insert-Wf_example = insert-Wf one [] (1 ∷ []) 2 (3 ∷ []) one-Wf

free-Wf_example : Wf (free_node one 1) [] (2 ∷ 3 ∷ 1 ∷ [])
free-Wf_example = free-Wf one [] 1 [] (2 ∷ 3 ∷ []) one-Wf

insert-Adds_example :
    Adds one 3 (contents one (1 ∷ [])) (insert one 1 5) (5 ∷ contents one (1 ∷ []))
insert-Adds_example = insert-Adds one 3 [] (1 ∷ []) (2 ∷ 3 ∷ []) 5 one-Wf one-room

erase-Holds_example : ((erase one 1).0 ≡ true) × Holds (erase one 1).1 3 []
erase-Holds_example = erase-Holds one 3 [] 1 [] (2 ∷ 3 ∷ []) one-Wf one-room

pop_back-end_example :
    ((pop_back one).0 ≡ true)
    × ((pop_back one).1.size + 1 ≡ one.size)
    × (begin (pop_back one).1 ≡ 1)
    × (end (pop_back one).1 ≡ 1)
    × (get_back (pop_back one).1 ≡ 1)
    × Links (pop_back one).1.nodes 1 [] 1
    × ((y : ℕ) → mem y (1 ∷ []) ≡ true → get_data_ptr (pop_back one).1 y ≡ some (datum one.nodes y))
    × ((us gs : List ℕ) → ¬ Wf (pop_back one).1 us gs)
pop_back-end_example = pop_back-end one [] 1 (2 ∷ 3 ∷ []) one-Wf

one-Valid : Valid one 3 1
one-Valid = record {
  used_pos = 1 ∷ [];
  unused_pos = 2 ∷ 3 ∷ [];
  wf = one-Wf;
  counted = refl;
  room = one-room;
}

one-first : get_ptr one 1 ≡ some 7
unfolding get_ptr get_data_ptr calc_byte_size init get_new_node_and_insert set_data link_before
    take_empty make_lists make_empty_list make_end
one-first = refl

one-second : get_ptr one 2 ≡ none
unfolding get_ptr get_data_ptr calc_byte_size init get_new_node_and_insert set_data link_before
    take_empty make_lists make_empty_list make_end
one-second = refl

malloc-ok_example :
    (pos : ℕ) × (s : ListState ℕ) × (malloc one 8 ≡ ok (pos, s))
    × Valid s 3 2
    × (pos ≢ 0)
    × (get_ptr one pos ≡ none)
    × ((x : ℕ) → get_ptr s x ≡ (if x == pos then some 8 else get_ptr one x))
malloc-ok_example = malloc-ok one 3 1 one-Valid 8 (omega arith)

free-ok_example :
    (s : ListState ℕ) × (free one 1 ≡ ok (true, s))
    × Valid s 3 0
    × ((y : ℕ) → get_ptr s y ≡ (if y == 1 then none else get_ptr one y))
free-ok_example = free-ok one 3 1 one-Valid 1 7 one-first
