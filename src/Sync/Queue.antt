-- ===== src/Sync/Queue.antt =====
-- The tasks that wait: `loop` and `getNextTask` of cluster/sync/sync.go.
use goquarkchain.Prelude.{
  ℕ, ◌≤◌, ◌≡◌, ◌≢◌, ◌⊎◌, inl, inr, refl, sym, subst, false, Option, none, some, List, [], ◌∷◌, All,
  ltb, ◌==◌, if◌then◌else◌, ltb→le, ltb→lt, Bool-cases, arith,
}

-- A task is known by its peer and its priority.
pub record Waiting : Type 0 where
  pub peer : ℕ
  pub priority : ℕ

-- `getNextTask`, from the best one so far on; the list is the map in some order.
unfoldable pub next_task_from : Waiting → List Waiting → Waiting
next_task_from best [] = best
next_task_from best (t ∷ tasks) =
    if ltb best.priority t.priority then next_task_from t tasks else next_task_from best tasks

unfoldable pub get_next_task : List Waiting → Option Waiting
unfolding next_task_from
get_next_task [] = none
get_next_task (t ∷ tasks) = some (next_task_from t tasks)

-- `taskMap[task.PeerID()] = task` and `delete(taskMap, peer)`.
unfoldable pub remove_peer : ℕ → List Waiting → List Waiting
remove_peer peer [] = []
remove_peer peer (t ∷ tasks) =
    let rest = remove_peer peer tasks in if t.peer == peer then rest else t ∷ rest

unfoldable pub put_task : Waiting → List Waiting → List Waiting
unfolding remove_peer
put_task task tasks = task ∷ remove_peer task.peer tasks

-- One turn of the loop: a task is received, or the next one is handed to the runner.
pub data Turn : List Waiting → List Waiting → Type 0 where
  receive : (task : Waiting) (tasks : List Waiting) → Turn tasks (put_task task tasks)
  assign :
      (task : Waiting) (tasks : List Waiting)
      → get_next_task tasks ≡ some task
      → Turn tasks (remove_peer task.peer tasks)

-- The turns that the loop takes, from the empty map on.
pub data Reached : List Waiting → Type 0 where
  start : Reached []
  turn : (before after : List Waiting) → Reached before → Turn before after → Reached after

-- No two tasks of one peer wait.
abbrev pub HasOnePerPeer : List Waiting → Type 0
HasOnePerPeer [] = Unit {0}
HasOnePerPeer (t ∷ tasks) = All (λ u. u.peer ≢ t.peer) tasks × HasOnePerPeer tasks

remove_peer-All :
    (P : Waiting → Type 0) (peer : ℕ) (tasks : List Waiting)
    → All P tasks
    → All P (remove_peer peer tasks)
unfolding remove_peer
remove_peer-All P peer [] = λ h. tt
remove_peer-All P peer (t ∷ tasks) = λ (h, hs). elim (Bool-cases (t.peer == peer)) [
  | inl same ↦ rw same (remove_peer-All P peer tasks hs)
  | inr other ↦ rw other (h, remove_peer-All P peer tasks hs)
]

not_eq : (a b : ℕ) → (a == b) ≡ false → a ≢ b
not_eq a b h e = ground arith

removed : (peer : ℕ) (tasks : List Waiting) → All (λ u. u.peer ≢ peer) (remove_peer peer tasks)
unfolding remove_peer
removed peer [] = tt
removed peer (t ∷ tasks) = elim (Bool-cases (t.peer == peer)) [
  | inl same ↦ rw same (removed peer tasks)
  | inr other ↦ rw other (not_eq _ _ other, removed peer tasks)
]

remove_peer-HasOnePerPeer :
    (peer : ℕ) (tasks : List Waiting) → HasOnePerPeer tasks → HasOnePerPeer (remove_peer peer tasks)
unfolding remove_peer
remove_peer-HasOnePerPeer peer [] = λ h. tt
remove_peer-HasOnePerPeer peer (t ∷ tasks) = λ (h, hs). elim (Bool-cases (t.peer == peer)) [
  | inl same ↦ rw same (remove_peer-HasOnePerPeer peer tasks hs)
  | inr other ↦
      rw other (
        remove_peer-All (λ u. u.peer ≢ t.peer) peer tasks h,
        remove_peer-HasOnePerPeer peer tasks hs,
      )
]

-- The list stays a map: each peer has one task at most.
pub Reached-HasOnePerPeer : (tasks : List Waiting) → Reached tasks → HasOnePerPeer tasks
unfolding put_task
Reached-HasOnePerPeer tasks Reached.start = tt
Reached-HasOnePerPeer tasks (Reached.turn before after reached (Turn.receive task tasks')) = (
  removed task.peer before,
  remove_peer-HasOnePerPeer task.peer before (Reached-HasOnePerPeer before reached),
)
Reached-HasOnePerPeer tasks (Reached.turn before after reached (Turn.assign task tasks' next)) =
    remove_peer-HasOnePerPeer task.peer before (Reached-HasOnePerPeer before reached)

-- The task is one of those.
abbrev pub IsOneOf : Waiting → List Waiting → Type 0
IsOneOf task [] = ⊥
IsOneOf task (t ∷ tasks) = (task ≡ t) ⊎ IsOneOf task tasks

abbrev IsBestOf : Waiting → List Waiting → Waiting → Type 0
IsBestOf best tasks n =
    (best.priority ≤ n.priority)
    × All (λ t. t.priority ≤ n.priority) tasks
    × IsOneOf n (best ∷ tasks)

past_first :
    (n t u : Waiting) (tasks : List Waiting) → IsOneOf n (t ∷ tasks) → IsOneOf n (t ∷ u ∷ tasks)
past_first n t u tasks (inl first) = inl first
past_first n t u tasks (inr later) = inr (inr later)

-- The best of the tasks is one of them, and has no smaller priority than any of them.
next_task_from-IsBestOf :
    (best : Waiting) (tasks : List Waiting) → IsBestOf best tasks (next_task_from best tasks)
unfolding next_task_from
next_task_from-IsBestOf best [] = (omega arith, tt, inl refl)
next_task_from-IsBestOf best (t ∷ tasks) = elim (Bool-cases (ltb best.priority t.priority)) [
  | inl more ↦
      let (le, all, one) = next_task_from-IsBestOf t tasks in
      let step : next_task_from best (t ∷ tasks) ≡ next_task_from t tasks = rw more refl in
      subst (IsBestOf best (t ∷ tasks)) (sym step)
        (omega (arith, le, ltb→lt _ _ more), (le, all), inr one)
  | inr less ↦
      let (le, all, one) = next_task_from-IsBestOf best tasks in
      let step : next_task_from best (t ∷ tasks) ≡ next_task_from best tasks = rw less refl in
      subst (IsBestOf best (t ∷ tasks)) (sym step)
        (le, (omega (arith, le, ltb→le _ _ less), all), past_first _ best t tasks one)
]

-- Whenever a task waits, `getNextTask` hands out one, in whatever order the map is gone through: it
-- is one of those that wait, and none of them has a greater priority.
pub get_next_task-max :
    (t : Waiting) (tasks : List Waiting)
    → (next : Waiting) × (get_next_task (t ∷ tasks) ≡ some next)
      × IsOneOf next (t ∷ tasks)
      × All (λ u. u.priority ≤ next.priority) (t ∷ tasks)
unfolding get_next_task
get_next_task-max t tasks =
    let (le, all, one) = next_task_from-IsBestOf t tasks in
    (next_task_from t tasks, refl, one, (le, all))
