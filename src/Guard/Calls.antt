-- ===== src/Guard/Calls.antt =====
-- packages/dsh-subagent-admission/src/host/process-guard.ts, the calls that it makes: a program asks
-- for one call of the operating system at a time, and goes on with what the call answers.
use dsh_subagent_admission.Prelude.{ℕ, String, Option, none, some, Bool, List, ◌∷◌, Result}
use dsh_subagent_admission.Guard.Owner.{OwnerRecord}

-- `error.code`.
pub data Errno : Type 0 where
  enoent eexist enotdir eloop esrch other_errno : Errno

-- The lock directory, and the names that it is moved to: `${path}.quarantine.${nonce}` and
-- `${path}.release.${nonce}`.
pub data LockPath : Type 0 where
  lock : LockPath
  quarantine release_of : String → LockPath

-- `owner.json`, `.owner.${nonce}.tmp` and `.released.${nonce}.json` stand in a directory.
pub data Target : Type 0 where
  directory owner_file : LockPath → Target
  temp_file tombstone : LockPath → String → Target

pub record Stats : Type 0 where
  pub is_directory : Bool
  pub is_file : Bool
  pub is_symbolic_link : Bool
  pub dev : ℕ
  pub ino : ℕ

-- Calls that answer nothing, or an error. `probe` is `process.kill(pid, 0)`; `write`, `sync` and
-- `close` are on the handle of the file.
pub data Action : Type 0 where
  mkdir open_new open_read sync close remove unlink rmdir : Target → Action
  write : Target → OwnerRecord → Action
  rename : Target → Target → Action
  probe : ℕ → Action

-- `lstat`, or `stat` of a handle.
pub data StatKind : Type 0 where
  by_path by_handle : StatKind

pub data Io (A : Type 0) : Type 0 where
  pure : A → Io A
  act : Action → (Result Errno (Unit {0}) → Io A) → Io A
  stat : StatKind → Target → (Result Errno Stats → Io A) → Io A
  read : Target → (Result Errno String → Io A) → Io A

infixl 5 ◌>>=◌
abbrev pub ◌>>=◌ : {A B : Type 0} → Io A → (A → Io B) → Io B
pure a >>= f = f a
act a k >>= f = act a (λ r. k r >>= f)
stat kind target k >>= f = stat kind target (λ r. k r >>= f)
read target k >>= f = read target (λ r. k r >>= f)

-- A call with its answer.
pub data Event : Type 0 where
  acted : Action → Result Errno (Unit {0}) → Event
  saw : StatKind → Target → Result Errno Stats → Event
  got : Target → Result Errno String → Event

-- What was called so far, the latest first.
abbrev pub Trace : Type 0
Trace = List Event

-- Whatever the calls answer: each action meets `P` where it is made, and the result meets `Q`.
abbrev pub Holds :
    {A : Type 0} → (Trace → Action → Type 0) → (Trace → A → Type 0) → Trace → Io A → Type 0
Holds P Q t (pure a) = Q t a
Holds P Q t (act a k) = P t a × ((r : Result Errno (Unit {0})) → Holds P Q (acted a r ∷ t) (k r))
Holds P Q t (stat kind target k) =
    (r : Result Errno Stats) → Holds P Q (saw kind target r ∷ t) (k r)
Holds P Q t (read target k) = (r : Result Errno String) → Holds P Q (got target r ∷ t) (k r)

-- A part is used through what holds of its results.
pub Holds-bind :
    {A B : Type 0} (P : Trace → Action → Type 0) (Q : Trace → A → Type 0) (R : Trace → B → Type 0)
    (m : Io A) (f : A → Io B) (t : Trace)
    → Holds P Q t m
    → ((u : Trace) (a : A) → Q u a → Holds P R u (f a))
    → Holds P R t (m >>= f)
Holds-bind P Q R (pure a) f t h k = k t a h
Holds-bind P Q R (act a n) f t h k = (h.0, λ r. Holds-bind P Q R (n r) f (acted a r ∷ t) (h.1 r) k)
Holds-bind P Q R (stat kind target n) f t h k =
    λ r. Holds-bind P Q R (n r) f (saw kind target r ∷ t) (h r) k
Holds-bind P Q R (read target n) f t h k = λ r. Holds-bind P Q R (n r) f (got target r ∷ t) (h r) k

-- What holds of a trace and of every longer one holds of the trace at the end.
pub Holds-with :
    {A : Type 0} (P : Trace → Action → Type 0) (Q : Trace → A → Type 0) (D : Trace → Type 0)
    (m : Io A) (t : Trace)
    → ((e : Event) (u : Trace) → D u → D (e ∷ u))
    → D t
    → Holds P Q t m
    → Holds P (λ (u : Trace) (a : A). D u × Q u a) t m
Holds-with P Q D (pure a) t grows d h = (d, h)
Holds-with P Q D (act a k) t grows d h =
    (h.0, λ r. Holds-with P Q D (k r) (acted a r ∷ t) grows (grows (acted a r) t d) (h.1 r))
Holds-with P Q D (stat kind target k) t grows d h =
    λ r. Holds-with P Q D (k r) (saw kind target r ∷ t) grows (grows (saw kind target r) t d) (h r)
Holds-with P Q D (read target k) t grows d h =
    λ r. Holds-with P Q D (k r) (got target r ∷ t) grows (grows (got target r) t d) (h r)

-- What the operating system answers, for a run of a program.
pub data OsAnswer : Type 0 where
  of_action : Result Errno (Unit {0}) → OsAnswer
  of_stat : Result Errno Stats → OsAnswer
  of_read : Result Errno String → OsAnswer

-- The run of a program on given answers, with its trace; `none` if they do not fit the calls.
abbrev pub replay : {A : Type 0} → Io A → List OsAnswer → Trace → Option (A × Trace)
replay (pure a) answers t = some (a, t)
replay (act a k) (of_action r ∷ answers) t = replay (k r) answers (acted a r ∷ t)
replay (stat kind target k) (of_stat r ∷ answers) t = replay (k r) answers (saw kind target r ∷ t)
replay (read target k) (of_read r ∷ answers) t = replay (k r) answers (got target r ∷ t)
replay m answers t = none
