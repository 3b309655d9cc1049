-- ===== src/Overlay/Workers.antt =====
-- internal/overlay/workers.go: the ready workers of a session, served in turn. Each method holds
-- the mutex for its whole body, so it is one step. A channel is known by a number.
pub mod Rotation
pub mod Routes
use vk_turn_proxy_go.Base.{
  ℕ, ◌+◌, ◌%◌, ◌^◌, Bool, true, false, ◌||◌, List, [], ◌∷◌, ◌++◌, Option, none, some, ◌==◌, leb,
  if◌then◌else◌, length, get_elem?,
}

pub record WorkerRoute : Type 0 where
  pub index : ℕ
  pub outbound : ℕ

pub record WorkerSet : Type 0 where
  pub workers : List WorkerRoute
  pub next : ℕ

-- `workerSet{}`.
abbrev pub empty_set : WorkerSet
empty_set = record { workers = []; next = 0 }

-- Whether the loop of `removeLocked` reaches a worker of this index.
pub holds : ℕ → List WorkerRoute → Bool
holds index [] = false
holds index (w ∷ ws) = w.index == index || holds index ws

-- The list without the first worker of this index.
pub erase : ℕ → List WorkerRoute → List WorkerRoute
erase index [] = []
erase index (w ∷ ws) = let rest = erase index ws in if w.index == index then ws else w ∷ rest

pub remove_locked : ℕ → WorkerSet → WorkerSet
unfolding holds erase
remove_locked index s =
    if holds index s.workers
    then (let left = erase index s.workers in
        record {
          workers = left;
          next = if length left == 0 || leb (length left) s.next then 0 else s.next;
        })
    else s

unfoldable pub set_ready : ℕ → ℕ → WorkerSet → WorkerSet
unfolding remove_locked
set_ready index outbound s =
    let t = remove_locked index s in
    let ws = t.workers ++ record { index = index; outbound = outbound } ∷ [] in
    record { workers = ws; next = if leb (length ws) t.next then 0 else t.next }

unfoldable pub remove : ℕ → WorkerSet → WorkerSet
unfolding remove_locked
remove index s = remove_locked index s

unfoldable pub next_worker : WorkerSet → WorkerSet × Option WorkerRoute
next_worker s = if length s.workers == 0 then (s, none) else (
  record s { next = (s.next + 1) % length s.workers },
  get_elem? s.workers (s.next % length s.workers),
)

-- `uint64(index) + 1`.
unfoldable pub route_id_for_worker : ℕ → ℕ
route_id_for_worker index = (index % 2 ^ 64 + 1) % 2 ^ 64
