-- ===== src/Sync/Tests.antt =====
-- Runs of cluster/sync/: a node with five blocks, and a chain that shares three of them and then
-- has a block of its own.
use goquarkchain.Prelude.{
  ℕ, ◌+◌, ◌-◌, ◌≤◌, ◌≡◌, ◌≢◌, ◌↔◌, refl, subst, Bool, true, ◌||◌, none, some, List, [], ◌∷◌, All,
  leb, ◌==◌, if◌then◌else◌, ok, err, arith,
}
use goquarkchain.Sync.Types.{out_of_fuel, Header}
use goquarkchain.Sync.Ancestor.{RootPeer, MinorPeer, root_find_ancestor}
use goquarkchain.Sync.Server.{Chain, Request, at_height, to_tip, root_headers_with_skip}
use goquarkchain.Sync.Served.{AreOwn, root_headers_with_skip-AreOwn}
use goquarkchain.Sync.Agreement.{served_by, IsCanonical}
use goquarkchain.Sync.Meeting.{Meets, root_find_ancestor-Meets}
use goquarkchain.Sync.Bound.{AnswersOurGenesis, root_find_ancestor_total, root_find_ancestor-Ours}
use goquarkchain.Sync.Search.{IsOursAtZero}
use goquarkchain.Sync.Task.{Ops, validate_header_list}
use goquarkchain.Sync.Linked.{IsLinkedAfter, validate_header_list_iff}
use goquarkchain.Sync.Queue.{Waiting, IsOneOf, get_next_task, get_next_task-max}

-- The node's header of a height, and our own header above the second.
abbrev node_header : ℕ → Header
node_header h = record {
  hash = h + 1;
  number = h;
  parent_hash = h;
  difficulty = 1;
  total_difficulty = h + 2;
}

abbrev our_tip : Header
our_tip = record { hash = 100; number = 3; parent_hash = 3; difficulty = 1; total_difficulty = 5 }

abbrev node : Chain
node = record {
  tip = node_header 4;
  by_number = λ h. if leb h 4 then some (node_header h) else none;
  by_hash = λ n. if leb n 5 then some (node_header (n - 1)) else none;
}

-- Our chain is known by how many of the node's blocks it has; a block is known by its hash.
abbrev our_ops : Ops ℕ ℕ
our_ops = record {
  current = λ x. our_tip;
  has_block = λ x n. leb n (x + 1);
  validate_seal = λ x h. true;
  sync_block = λ x n. ok x;
  add_block = λ x n. ok (n - 1);
  header_of = λ n. node_header (n - 1);
  get_blocks = λ n hashes. some hashes;
}

node-IsCanonical : IsCanonical node node_header
node-IsCanonical = record {
  tip_is = refl;
  numbered = λ h le. refl;
  stored = λ h le. stored_at h (fits h le);
}
  where
    fits : (h : ℕ) → h ≤ 4 → leb h 4 ≡ true
    fits h le = ground arith

    stored_at :
        (h : ℕ)
        → leb h 4 ≡ true
        → (if leb h 4 then some (node_header h) else none) ≡ some (node_header h)
    stored_at h e = rw e refl

node-Meets : Meets node node_header 22500 (λ n. leb n 3) our_tip node.tip 2
node-Meets = record {
  canonical = node-IsCanonical;
  shared = λ h le. shared_at h;
  below_tip = omega arith;
  below_target = omega arith;
  fresh = omega arith;
  target_covered = omega arith;
  heavy = omega arith;
  heavier = omega arith;
  small = omega arith;
}
  where
    shared_at : (h : ℕ) → leb (h + 1) 3 ≡ leb h 2
    shared_at h = ground arith

root_find_ancestor-Meets_example :
    (target' : Header) × (root_find_ancestor (served_by node) 22500 (λ n. leb n 3) our_tip node.tip
      ≡ ok (some (node_header 2), target'))
    × (node.tip ≡ node.tip → target' ≡ node.tip)
root_find_ancestor-Meets_example =
    root_find_ancestor-Meets node node_header 22500 (λ n. leb n 3) our_tip node.tip 2 node-Meets
      (λ e. absurd (omega (arith, e)))

-- A peer that answers with one header, of the height that the search asks for.
abbrev stranger : RootPeer
stranger n start skip limit = some (node_header 30, node_header start ∷ [])

stranger_genesis : AnswersOurGenesis stranger (λ n. leb n 3)
stranger_genesis n start skip limit tip headers e =
    let same : (node_header start ∷ []) ≡ headers = cc in
    subst (All (IsOursAtZero (λ n. leb n 3))) same (λ z. small start z, tt)
  where
    small : (k : ℕ) → k ≡ 0 → leb (k + 1) 3 ≡ true
    small k z = ground arith

root_find_ancestor_total_example :
    root_find_ancestor stranger 22500 (λ n. leb n 3) (node_header 12) (node_header 30)
    ≢ err out_of_fuel
root_find_ancestor_total_example =
    root_find_ancestor_total stranger 22500 (λ n. leb n 3) (node_header 12) (node_header 30)
      (omega arith) (λ low. stranger_genesis)

abbrev minor_stranger : MinorPeer
minor_stranger n start skip limit = some (node_header start ∷ [])

known : ℕ → Bool
known n = leb n 3 || n == 100

-- A peer with the node's first four headers.
abbrev first_four : List Header
first_four = node_header 0 ∷ node_header 1 ∷ node_header 2 ∷ node_header 3 ∷ []

abbrev honest : RootPeer
honest n start skip limit = some (node.tip, first_four)

honest_genesis : AnswersOurGenesis honest known
unfolding known
honest_genesis n start skip limit tip headers e =
    let same : first_four ≡ headers = cc in
    subst (All (IsOursAtZero known)) same (
      λ z. refl,
      (
        λ z. absurd (omega (arith, z)),
        (λ z. absurd (omega (arith, z)), (λ z. absurd (omega (arith, z)), tt)),
      ),
    )

found_second :
    root_find_ancestor honest 22500 known our_tip node.tip ≡ ok (some (node_header 2), node.tip)
unfolding root_find_ancestor known
found_second = refl

known_tip : known 100 ≡ true
unfolding known
known_tip = refl

root_find_ancestor-Ours_example : (known 3 ≡ true) × (2 ≤ 3)
root_find_ancestor-Ours_example =
    root_find_ancestor-Ours honest 22500 known our_tip node.tip (node_header 2) node.tip
      (omega arith) (λ low. honest_genesis) known_tip found_second

validate_header_list_iff_example :
    (validate_header_list (λ h. true) none (node_header 1 ∷ node_header 2 ∷ []) ≡ ok tt) ↔ (
      All (λ h. true ≡ true) (node_header 1 ∷ node_header 2 ∷ [])
      × IsLinkedAfter none (node_header 1 ∷ node_header 2 ∷ []))
validate_header_list_iff_example =
    validate_header_list_iff (λ h. true) (node_header 1 ∷ node_header 2 ∷ [])

abbrev low_task : Waiting
low_task = record { peer = 1; priority = 5 }

abbrev high_task : Waiting
high_task = record { peer = 2; priority = 9 }

get_next_task-max_example :
    (next : Waiting) × (get_next_task (low_task ∷ high_task ∷ []) ≡ some next)
    × IsOneOf next (low_task ∷ high_task ∷ [])
    × All (λ u. u.priority ≤ next.priority) (low_task ∷ high_task ∷ [])
get_next_task-max_example = get_next_task-max low_task (high_task ∷ [])

-- Heights 1 and 3.
abbrev every_second : Request
every_second = record { start = at_height 1; skip = 1; limit = 9; direction = to_tip }

answered :
    root_headers_with_skip node every_second ≡ ok (node.tip, node_header 1 ∷ node_header 3 ∷ [])
unfolding root_headers_with_skip
answered = refl

root_headers_with_skip-AreOwn_example :
    (node.tip ≡ node.tip)
    × (1 ≤ 9)
    × (9 ≤ 1000)
    × AreOwn node 9 (node_header 1 ∷ node_header 3 ∷ [])
root_headers_with_skip-AreOwn_example =
    root_headers_with_skip-AreOwn node every_second node.tip (node_header 1 ∷ node_header 3 ∷ [])
      answered
