-- ===== src/Service/Bootstrap/Roots.antt =====
-- service.ts, the roots that a bootstrap gathers from lineages.
use dsh_subagent_admission.Prelude.{
  ◌≡◌, refl, String, Option, none, some, List, [], ◌∷◌, All, ◌==◌, Dict, lookup, lookup-insert,
  eq_iff, inl, inr, Bool-cases, arith,
}
use dsh_subagent_admission.Service.Bootstrap.{put_over, put_lineage}
use dsh_subagent_admission.Service.Bootstrap.Ensures.{Ensures, Ensures-bind, Ensures-map}

-- Roots that were found stay.
abbrev pub Grows : Dict String → Dict String → Type 0
Grows roots later =
    (session root : String) → lookup session roots ≡ some root → lookup session later ≡ some root

abbrev pub HaveRoot : String → List String → Dict String → Type 0
HaveRoot root sessions roots = All (λ (s : String). lookup s roots ≡ some root) sessions

put_over-Ensures :
    (o : Option String) (session root : String) (roots : Dict String)
    → lookup session roots ≡ o
    → Ensures
        (λ (later : Dict String). Grows roots later × (lookup session later ≡ some root))
        (put_over o session root roots)
put_over-Ensures none session root roots e = (
  λ other own h. ground (arith, lookup-insert session other root roots, eq_iff session other),
  ground (arith, lookup-insert session session root roots, eq_iff session session),
)
put_over-Ensures (some current) session root roots e = elim (Bool-cases (current == root)) [
  | inl same ↦ rw same (
    (λ other own h.
        ground (
          arith,
          lookup-insert session other root roots,
          eq_iff session other,
          eq_iff current root,
        )),
    ground (arith, lookup-insert session session root roots, eq_iff session session),
  )
  | inr differ ↦ rw differ tt
]

pub HaveRoot-Grows :
    (root : String) (sessions : List String) (roots later : Dict String)
    → Grows roots later
    → HaveRoot root sessions roots
    → HaveRoot root sessions later
HaveRoot-Grows root [] roots later g h = tt
HaveRoot-Grows root (s ∷ sessions) roots later g h =
    (g s root h.0, HaveRoot-Grows root sessions roots later g h.1)

pub put_lineage-Ensures :
    (root : String) (sessions : List String) (roots : Dict String)
    → Ensures
        (λ (later : Dict String). Grows roots later × HaveRoot root sessions later)
        (put_lineage root sessions roots)
unfolding put_lineage
put_lineage-Ensures root [] roots = (λ s r h. h, tt)
put_lineage-Ensures root (session ∷ sessions) roots =
    Ensures-bind (λ (mid : Dict String). Grows roots mid × (lookup session mid ≡ some root))
      (λ (later : Dict String). Grows roots later × HaveRoot root (session ∷ sessions) later)
      (put_over (lookup session roots) session root roots) (put_lineage root sessions)
      (put_over-Ensures (lookup session roots) session root roots refl)
      (λ mid one.
        Ensures-map (λ (later : Dict String). Grows mid later × HaveRoot root sessions later)
          (λ (later : Dict String). Grows roots later × HaveRoot root (session ∷ sessions) later)
          (put_lineage root sessions mid) (put_lineage-Ensures root sessions mid)
          (λ later rest. (λ s r h. rest.0 s r (one.0 s r h), (rest.0 session root one.1, rest.1))))
