-- ===== src/Service/Bootstrap/Inspect/Parents.antt =====
-- service.ts, the parents that the bootstrap headers answer.
use dsh_subagent_admission.Prelude.{
  ◌≡◌, refl, sym, ◌∙◌, ap, subst, String, Option, none, some, Bool, true, false, List, [], ◌∷◌,
  ◌==◌, ◌&&◌, if◌then◌else◌, Result, ok, err, inl, inr, Bool-cases, lookup, insert, lookup-insert,
  eq_iff, arith,
}
use dsh_subagent_admission.Resolver.{Inspection, rejects, missing, header}
use dsh_subagent_admission.Telemetry.Snapshot.{Answer, answers, throws}
use dsh_subagent_admission.Service.Bootstrap.{
  RawHeader, HostSessionHeader, HostSession, Checked, Catalog, normalized_header, is_same_parent,
  add_over, add_header,
}
use dsh_subagent_admission.Service.Bootstrap.Ensures.{Ensures, Ensures-bind, any-Ensures}
use dsh_subagent_admission.Service.Bootstrap.Inspect.{
  InspectCall, InspectError, Inspected, live_added, persisted_added, from_persistence, from_cache,
  from_live, inspect_header, inspect_all,
}

abbrev parent_in : Option HostSessionHeader → Option (Option String)
parent_in none = none
parent_in (some h) = some h.parent_session

abbrev known_parent : String → Catalog → Option (Option String)
known_parent id catalog = parent_in (lookup id catalog)

-- The parents that were known stay the same.
abbrev Keeps : Catalog → Catalog → Type 0
Keeps catalog later =
    (id : String) (parent : Option String)
    → known_parent id catalog ≡ some parent
    → known_parent id later ≡ some parent

abbrev AddsWell : Catalog → HostSessionHeader × Catalog → Type 0
AddsWell catalog (h, later) =
    Keeps catalog later × (known_parent h.id later ≡ some h.parent_session)

is_same_parent-true : (a b : Option String) → is_same_parent a b ≡ true → a ≡ b
is_same_parent-true none none e = refl
is_same_parent-true none (some s) e = cc
is_same_parent-true (some s) none e = cc
is_same_parent-true (some s) (some u) e = ap some ((eq_iff s u).0 e)

insert-AddsWell :
    (h : HostSessionHeader) (catalog : Catalog)
    → ((parent : Option String)
        → known_parent h.id catalog ≡ some parent
        → parent ≡ h.parent_session)
    → AddsWell catalog (h, insert h.id h catalog)
insert-AddsWell h catalog agrees = (
  λ id parent known. elim (Bool-cases (h.id == id)) [
    | inl e ↦
        let same : h.id ≡ id = (eq_iff h.id id).0 e in
        let kept = agrees parent (ap (λ (x : String). known_parent x catalog) same ∙ known) in
        ground (arith, kept, e, lookup-insert h.id id h catalog)
    | inr e ↦ ground (arith, known, e, lookup-insert h.id id h catalog)
  ],
  ground (arith, lookup-insert h.id h.id h catalog, eq_iff h.id h.id),
)

some-injective : {A : Type 0} (a b : A) → some a ≡ some b → a ≡ b
some-injective a b e = cc

add_over-AddsWell :
    (o : Option HostSessionHeader) (h : HostSessionHeader) (catalog : Catalog)
    → lookup h.id catalog ≡ o
    → Ensures (AddsWell catalog) (add_over o h catalog)
add_over-AddsWell none h catalog e =
    insert-AddsWell h catalog
      (λ parent known. let bad : none ≡ some parent = ap parent_in (sym e) ∙ known in cc)
add_over-AddsWell (some current) h catalog e =
    elim (Bool-cases (is_same_parent current.parent_session h.parent_session)) [
      | inl same ↦ rw same (
          insert-AddsWell h catalog (λ parent known.
            let k : some current.parent_session ≡ some parent = ap parent_in (sym e) ∙ known in
            sym (some-injective current.parent_session parent k)
            ∙ is_same_parent-true current.parent_session h.parent_session same))
      | inr differ ↦ rw differ tt
    ]

add_header-AddsWell :
    (raw : RawHeader) (catalog : Catalog) → Ensures (AddsWell catalog) (add_header raw catalog)
unfolding add_header
add_header-AddsWell raw catalog =
    Ensures-bind (λ (h : HostSessionHeader). Unit {0}) (AddsWell catalog) (normalized_header raw)
      (λ h. add_over (lookup h.id catalog) h catalog) (any-Ensures (normalized_header raw))
      (λ h u. add_over-AddsWell (lookup h.id catalog) h catalog refl)

-- A header that is answered has the parent that is known for the session.
abbrev AnswersKnown : String → Result InspectError Inspection → Catalog → Type 0
AnswersKnown id (err e) later = Unit
AnswersKnown id (ok rejects) later = Unit
AnswersKnown id (ok missing) later = Unit
AnswersKnown id (ok (header shown parent)) later = known_parent id later ≡ some parent

abbrev InspectsWell : String → Catalog → Inspected → Type 0
InspectsWell id catalog (r, later) = Keeps catalog later × AnswersKnown id r later

if-InspectsWell :
    (b : Bool) (id : String) (catalog : Catalog) (x y : Inspected)
    → (b ≡ true → InspectsWell id catalog x)
    → InspectsWell id catalog y
    → InspectsWell id catalog (if b then x else y)
if-InspectsWell true id catalog x y p q = p refl
if-InspectsWell false id catalog x y p q = q

live_added-InspectsWell :
    (live : HostSession) (id : String) (catalog : Catalog)
    (m : Checked (HostSessionHeader × Catalog))
    → Ensures (AddsWell catalog) m
    → InspectsWell id catalog (live_added live id catalog m)
live_added-InspectsWell live id catalog (err reason) w = (λ i p k. k, tt)
live_added-InspectsWell live id catalog (ok (h, grown)) w =
    if-InspectsWell (live.id == id && h.id == id) id catalog _ _
      (λ e.
        let same : h.id ≡ id = ground (arith, e, eq_iff h.id id) in
        (w.0, ap (λ (x : String). known_parent x grown) (sym same) ∙ w.1))
      (w.0, tt)

persisted_added-InspectsWell :
    (id : String) (catalog : Catalog) (m : Checked (HostSessionHeader × Catalog))
    → Ensures (AddsWell catalog) m
    → InspectsWell id catalog (persisted_added id catalog m)
persisted_added-InspectsWell id catalog (err reason) w = (λ i p k. k, tt)
persisted_added-InspectsWell id catalog (ok (h, grown)) w =
    if-InspectsWell (h.id == id) id catalog _ _
      (λ e. (w.0, ap (λ (x : String). known_parent x grown) (sym ((eq_iff h.id id).0 e)) ∙ w.1))
      (w.0, tt)

from_persistence-InspectsWell :
    (is_aborted : Bool) (id : String) (catalog : Catalog) (answer : Answer (Option RawHeader))
    → InspectsWell id catalog (from_persistence is_aborted id catalog answer)
from_persistence-InspectsWell true id catalog throws = (λ i p k. k, tt)
from_persistence-InspectsWell false id catalog throws = (λ i p k. k, tt)
from_persistence-InspectsWell true id catalog (answers o) = (λ i p k. k, tt)
from_persistence-InspectsWell false id catalog (answers none) = (λ i p k. k, tt)
from_persistence-InspectsWell false id catalog (answers (some raw)) =
    persisted_added-InspectsWell id catalog (add_header raw catalog)
      (add_header-AddsWell raw catalog)

from_cache-InspectsWell :
    (call : InspectCall) (catalog : Catalog) (o : Option HostSessionHeader)
    → lookup call.session_id catalog ≡ o
    → InspectsWell call.session_id catalog (from_cache call catalog o)
from_cache-InspectsWell call catalog (some cached) e = (λ i p k. k, ap parent_in e)
from_cache-InspectsWell call catalog none e =
    if-InspectsWell (call.is_aborted 1) call.session_id catalog _ _ (λ a. (λ i p k. k, tt))
      (from_persistence-InspectsWell (call.is_aborted 2) call.session_id catalog call.inspected)

from_live-InspectsWell :
    (call : InspectCall) (catalog : Catalog) (get : Answer (Option HostSession))
    → InspectsWell call.session_id catalog (from_live call catalog get)
from_live-InspectsWell call catalog throws = (λ i p k. k, tt)
from_live-InspectsWell call catalog (answers none) =
    from_cache-InspectsWell call catalog (lookup call.session_id catalog) refl
from_live-InspectsWell call catalog (answers (some live)) =
    live_added-InspectsWell live call.session_id catalog (add_header live.header catalog)
      (add_header-AddsWell live.header catalog)

inspect_header-InspectsWell :
    (call : InspectCall) (catalog : Catalog)
    → InspectsWell call.session_id catalog (inspect_header call catalog)
unfolding inspect_header
inspect_header-InspectsWell call catalog =
    if-InspectsWell (call.is_aborted 0) call.session_id catalog _ _ (λ a. (λ i p k. k, tt))
      (from_live-InspectsWell call catalog call.get)

inspect_all-Keeps :
    (calls : List InspectCall) (catalog : Catalog) → Keeps catalog (inspect_all calls catalog)
unfolding inspect_all
inspect_all-Keeps [] catalog = λ id parent k. k
inspect_all-Keeps (call ∷ calls) catalog = λ id parent k.
    inspect_all-Keeps calls (inspect_header call catalog).1 id parent
      ((inspect_header-InspectsWell call catalog).0 id parent k)

-- The header of a session that was inspected once is final: whatever is inspected in between and
-- whatever the stores answer, a later inspection of the same session gives the same parent, or fails,
-- or finds no session.
pub inspected_parent_is_final :
    (first again : InspectCall) (between : List InspectCall) (catalog : Catalog)
    (shown later_shown : String) (parent later_parent : Option String)
    → again.session_id ≡ first.session_id
    → (inspect_header first catalog).0 ≡ ok (header shown parent)
    → let grown = inspect_all between (inspect_header first catalog).1 in
      (inspect_header again grown).0 ≡ ok (header later_shown later_parent) → later_parent ≡ parent
inspected_parent_is_final first again between catalog shown later_shown parent later_parent same e
      later =
    let one = inspect_header first catalog in
    let grown = inspect_all between one.1 in
    let two = inspect_header again grown in
    let known : known_parent first.session_id one.1 ≡ some parent =
      subst (λ r. AnswersKnown first.session_id r one.1) e
        ((inspect_header-InspectsWell first catalog).1) in
    let kept = inspect_all-Keeps between one.1 first.session_id parent known in
    let kept_again = (inspect_header-InspectsWell again grown).0 first.session_id parent kept in
    let answered : known_parent again.session_id two.1 ≡ some later_parent =
      subst (λ r. AnswersKnown again.session_id r two.1) later
        ((inspect_header-InspectsWell again grown).1) in
    sym (
      some-injective parent later_parent
        (sym kept_again ∙ ap (λ (x : String). known_parent x two.1) (sym same) ∙ answered))
