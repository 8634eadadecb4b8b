-- ===== src/Examples/Queues.antt =====
-- A queue of numbers with room for three elements.
use lsf.Prelude.{ℕ, ◌<◌, ◌≡◌, true, false, [], ◌∷◌, arith}
use lsf.Container.CircularQueue.{QueueState, calc_byte_size, init, push_back, pop_front}
use lsf.Container.CircularQueue.Holds.{Holds}
use lsf.Container.CircularQueue.Ends.{push_back-Holds, pop_front-Holds, init-Holds}

abbrev fresh : QueueState ℕ
fresh = init 40 8 (λ _. 0) (calc_byte_size 40 8 3)

init-Holds_example : Holds fresh 3 []
init-Holds_example = init-Holds 40 8 (λ _. 0) 3 (omega arith) (omega arith) (omega arith)

fresh-Holds : Holds fresh 3 []
fresh-Holds = init-Holds 40 8 (λ _. 0) 3 (omega arith) (omega arith) (omega arith)

one-Holds : Holds (push_back fresh 7).1 3 (7 ∷ [])
one-Holds = ((push_back-Holds fresh 3 [] fresh-Holds 7).0 (omega arith)).1

push_back-Holds_example :
    (1 < 3
      → ((push_back (push_back fresh 7).1 9).0 ≡ true)
        × Holds (push_back (push_back fresh 7).1 9).1 3 (7 ∷ 9 ∷ []))
    × (◌≡◌ {A = ℕ} 1 3 → push_back (push_back fresh 7).1 9 ≡ (false, (push_back fresh 7).1))
push_back-Holds_example = push_back-Holds (push_back fresh 7).1 3 (7 ∷ []) one-Holds 9

pop_front-Holds_example :
    ((pop_front (push_back fresh 7).1).0 ≡ true) × Holds (pop_front (push_back fresh 7).1).1 3 []
pop_front-Holds_example = pop_front-Holds (push_back fresh 7).1 3 7 [] one-Holds
