-- ===== src/Asio/CompletionQueue.antt =====
-- `CompletionQueue` of dev/lsf/asio/async/completion_queue.hpp: for each file descriptor what to call
-- when it can be read, can be written, or is ready. A shared pointer is a value of `R`, `W` or `X`;
-- what `new` gives is the argument `fresh`.
use lsf.Prelude.{ℕ, ◌≡◌, refl, Option, none, some, ◌==◌, if◌then◌else◌}
use lsf.Prelude.Dict.{Dict}
use lsf.Prelude.Dict

pub record CompletionQueue (R W X : Type 0) : Type 0 where
  pub read_func_map : Dict R
  pub write_func_map : Dict W
  pub raw_func_map : Dict X

-- The entry, which is made if there is none.
unfoldable pub or_fresh : {P : Type 0} → P → Option P → P
or_fresh fresh none = fresh
or_fresh fresh (some p) = p

module _ {R W X : Type 0} where
  unfoldable pub get_read : ℕ → CompletionQueue R W X → Option R
  get_read fd q = Dict.find fd q.read_func_map

  unfoldable pub get_write : ℕ → CompletionQueue R W X → Option W
  get_write fd q = Dict.find fd q.write_func_map

  unfoldable pub get_raw : ℕ → CompletionQueue R W X → Option X
  get_raw fd q = Dict.find fd q.raw_func_map

  unfoldable pub create_read : R → ℕ → CompletionQueue R W X → R × CompletionQueue R W X
  create_read fresh fd q =
      let p = or_fresh fresh (Dict.find fd q.read_func_map) in
      (p, record q { read_func_map = Dict.insert fd p q.read_func_map })

  unfoldable pub create_write : W → ℕ → CompletionQueue R W X → W × CompletionQueue R W X
  create_write fresh fd q =
      let p = or_fresh fresh (Dict.find fd q.write_func_map) in
      (p, record q { write_func_map = Dict.insert fd p q.write_func_map })

  unfoldable pub create_raw : X → ℕ → CompletionQueue R W X → X × CompletionQueue R W X
  create_raw fresh fd q =
      let p = or_fresh fresh (Dict.find fd q.raw_func_map) in
      (p, record q { raw_func_map = Dict.insert fd p q.raw_func_map })

  unfoldable pub cancel_read : ℕ → CompletionQueue R W X → CompletionQueue R W X
  cancel_read fd q = record q { read_func_map = Dict.erase fd q.read_func_map }

  unfoldable pub cancel_write : ℕ → CompletionQueue R W X → CompletionQueue R W X
  cancel_write fd q = record q { write_func_map = Dict.erase fd q.write_func_map }

  unfoldable pub cancel_raw : ℕ → CompletionQueue R W X → CompletionQueue R W X
  cancel_raw fd q = record q { raw_func_map = Dict.erase fd q.raw_func_map }

  -- After asking for the read entry of a descriptor, that entry is found: the one that was there, or the
  -- fresh one; the other read entries and the other two maps are as before.
  pub create_read-get :
      (fresh : R) (fd k : ℕ) (q : CompletionQueue R W X)
      → ((create_read fresh fd q).0 ≡ or_fresh fresh (get_read fd q))
        × (get_read k (create_read fresh fd q).1
            ≡ (if fd == k then some (create_read fresh fd q).0 else get_read k q))
        × (get_write k (create_read fresh fd q).1 ≡ get_write k q)
        × (get_raw k (create_read fresh fd q).1 ≡ get_raw k q)
  unfolding create_read get_read get_write get_raw
  create_read-get fresh fd k q = (
    refl,
    Dict.find-insert fd k (or_fresh fresh (Dict.find fd q.read_func_map)) q.read_func_map,
    refl,
    refl,
  )
