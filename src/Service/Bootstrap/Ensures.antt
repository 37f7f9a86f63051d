-- ===== src/Service/Bootstrap/Ensures.antt =====
-- service.ts, checks that give a value or a reason.
use dsh_subagent_admission.Prelude.{ok, err, ◌>>=◌}
use dsh_subagent_admission.Service.Bootstrap.{Checked}

-- What holds of the value, if there is one.
abbrev pub Ensures : {A : Type 0} → (A → Type 0) → Checked A → Type 0
Ensures Q (ok a) = Q a
Ensures Q (err reason) = Unit

pub Ensures-bind :
    {A B : Type 0} (Q : A → Type 0) (R : B → Type 0) (m : Checked A) (f : A → Checked B)
    → Ensures Q m
    → ((a : A) → Q a → Ensures R (f a))
    → Ensures R (m >>= f)
Ensures-bind Q R (ok a) f h k = k a h
Ensures-bind Q R (err reason) f h k = tt

pub Ensures-map :
    {A : Type 0} (Q R : A → Type 0) (m : Checked A)
    → Ensures Q m
    → ((a : A) → Q a → R a)
    → Ensures R m
Ensures-map Q R (ok a) h k = k a h
Ensures-map Q R (err reason) h k = tt

pub any-Ensures : {A : Type 0} (m : Checked A) → Ensures (λ (a : A). Unit {0}) m
any-Ensures (ok a) = tt
any-Ensures (err reason) = tt
