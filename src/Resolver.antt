-- ===== src/Resolver.antt =====
-- packages/dsh-subagent-admission/src/host/root-resolver.ts: the durable root of a session, and the
-- immutable child bindings. The header reader and the abort signal are not this repository's: a
-- resolution takes what they answer, `Reading`.
pub mod Suffixes
pub mod Finality
pub mod Traversal
pub mod Memo
pub mod Bindings
use dsh_subagent_admission.Prelude.{
  ℕ, zero, suc, ◌+◌, ◌*◌, String, Option, none, some, Bool, true, false, List, [], ◌∷◌, ◌++◌, Dict,
  lookup, insert, not, ◌==◌, ltb, length, if◌then◌else◌, Result, ok, err,
}

-- What `inspect` answers: it rejects, finds nothing, or finds a header with its id and its parent.
pub data Inspection : Type 0 where
  rejects missing : Inspection
  header : String → Option String → Inspection

-- The answers during one resolution: of the reader at its n-th call, and of the signal at its n-th
-- check.
pub record Reading : Type 0 where
  pub inspect : ℕ → String → Inspection
  pub is_aborted : ℕ → Bool

pub record ResolvedLineage : Type 0 where
  pub root_session_id : String
  pub lineage : List String

pub record ChildBindingInput : Type 0 where
  pub child_session_id : String
  pub expected_parent_session_id : String
  pub expected_root_session_id : String
  pub local_parent_session_id : Option String

pub record BoundChild : Type 0 where
  pub root_session_id : String
  pub parent_session_id : String

-- The two codes of `ResolverOperationalError` with their ids; what the signal or the reader throws;
-- and the model's own running out of fuel.
pub data ResolverError : Type 0 where
  unavailable conflict : String → ResolverError
  aborted reader_rejected out_of_fuel : ResolverError

pub record DurableRootResolver : Type 0 where
  pub resolved : Dict ResolvedLineage
  pub bound_children : Dict BoundChild

abbrev pub max_traversal_headers : ℕ
max_traversal_headers = 1024

-- `visited.has(id)`: the visited ids are those of the path.
abbrev pub is_visited : String → List String → Bool
is_visited id [] = false
is_visited id (x ∷ xs) = if x == id then true else is_visited id xs

-- The checks on a header that was read.
unfoldable pub is_acceptable : Inspection → String → List String → Bool
is_acceptable rejects current path = false
is_acceptable missing current path = false
is_acceptable (header id parent) current path =
    if not (id == current)
    then false
    else if is_visited current path
    then false
    else not (ltb max_traversal_headers (length (path ++ current ∷ [])))

abbrev pub is_rejection : Inspection → Bool
is_rejection rejects = true
is_rejection missing = false
is_rejection (header id parent) = false

abbrev pub parent_of : Inspection → Option String
parent_of rejects = none
parent_of missing = none
parent_of (header id parent) = parent

-- One round up to the update of `currentId`: the header's parent, or the throw.
unfoldable pub visit : Reading → ℕ → String → List String → Result ResolverError (Option String)
unfolding is_acceptable
visit reading n current path =
    let answer = reading.inspect n current in
    if reading.is_aborted (2 * n + 1)
    then err aborted
    else if is_rejection answer
    then err reader_rejected
    else if reading.is_aborted (2 * n + 2)
    then err aborted
    else if not (is_acceptable answer current path)
    then err (unavailable current)
    else ok (parent_of answer)

-- The `while` loop, one round to a unit of fuel; `n` is the round.
unfoldable pub traverse :
    Reading → ℕ → ℕ → String → List String → Result ResolverError (List String)
traverse reading zero n current path = err out_of_fuel
traverse reading (suc fuel) n current path = elim (visit reading n current path) [
  | err e ↦ err e
  | ok none ↦ ok (path ++ current ∷ [])
  | ok (some parent) ↦ traverse reading fuel (suc n) parent (path ++ current ∷ [])
]

-- `path[path.length - 1]`.
abbrev pub last : List String → Option String
last [] = none
last (x ∷ []) = some x
last (x ∷ y ∷ rest) = last (y ∷ rest)

-- `memoize` at every index of the path: each id gets the rest of the path from it.
unfoldable pub memoize_all : String → List String → Dict ResolvedLineage → Dict ResolvedLineage
memoize_all root [] memo = memo
memoize_all root (x ∷ rest) memo =
    memoize_all root rest (insert x (record { root_session_id = root; lineage = x ∷ rest }) memo)

-- The end of `resolve`, once the traversal has succeeded.
unfoldable pub finish :
    DurableRootResolver
    → String
    → List String
    → Result ResolverError ResolvedLineage × DurableRootResolver
finish r start path = elim (last path) [
  | none ↦ (err (unavailable start), r)
  | some root ↦ (
    ok (record { root_session_id = root; lineage = path }),
    record r { resolved = memoize_all root path r.resolved },
  )
]

-- One round more than the headers that may be visited.
abbrev pub traversal_fuel : ℕ
traversal_fuel = 1025

unfoldable pub resolve_fresh :
    Reading
    → DurableRootResolver
    → String
    → Result ResolverError (List String)
    → Result ResolverError ResolvedLineage × DurableRootResolver
resolve_fresh reading r start (ok path) = finish r start path
resolve_fresh reading r start (err e) = (err e, r)

unfoldable pub resolve :
    Reading
    → DurableRootResolver
    → String
    → Result ResolverError ResolvedLineage × DurableRootResolver
resolve reading r start =
    let walk = resolve_fresh reading r start (traverse reading traversal_fuel 0 start []) in
    if reading.is_aborted 0
    then (err aborted, r)
    else elim (lookup start r.resolved) [ some memoized ↦ (ok memoized, r) | none ↦ walk ]

-- `value !== undefined && value.rootSessionId !== root`.
abbrev pub has_other_root : Option ResolvedLineage → String → Bool
has_other_root none root = false
has_other_root (some l) root = not (l.root_session_id == root)

abbrev pub has_other_parent : Option String → String → Bool
has_other_parent none parent = false
has_other_parent (some p) parent = not (p == parent)

unfoldable pub bind_fresh :
    DurableRootResolver → ChildBindingInput → Result ResolverError DurableRootResolver
bind_fresh r input =
    let child = input.child_session_id in
    if has_other_root (lookup child r.resolved) input.expected_root_session_id
    then err (conflict child)
    else if has_other_root (lookup input.expected_parent_session_id r.resolved)
        input.expected_root_session_id
    then err (conflict child)
    else ok (record r {
      bound_children =
          insert child
            (record {
              root_session_id = input.expected_root_session_id;
              parent_session_id = input.expected_parent_session_id;
            })
            r.bound_children;
    })

unfoldable pub bind_child :
    DurableRootResolver → ChildBindingInput → Result ResolverError DurableRootResolver
unfolding bind_fresh
bind_child r input =
    let child = input.child_session_id in
    if has_other_parent input.local_parent_session_id input.expected_parent_session_id
    then err (conflict child)
    else elim (lookup child r.bound_children) [
      | none ↦ bind_fresh r input
      | some b ↦
          if not (b.root_session_id == input.expected_root_session_id)
          then err (conflict child)
          else if not (b.parent_session_id == input.expected_parent_session_id)
          then err (conflict child)
          else ok r
    ]
