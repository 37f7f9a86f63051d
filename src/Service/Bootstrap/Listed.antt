-- ===== src/Service/Bootstrap/Listed.antt =====
-- service.ts, the sessions that were listed and the catalog that they make.
use dsh_subagent_admission.Prelude.{
  ◌≡◌, ◌≢◌, refl, sym, ◌∙◌, ap, subst, String, Option, none, some, true, false, List, [], ◌∷◌, All,
  ◌==◌, is_empty, if◌then◌else◌, err, inl, inr, Bool-cases, lookup, insert, lookup-insert, eq_iff,
  arith,
}
use dsh_subagent_admission.Telemetry.Values.{Value, text, not_text}
use dsh_subagent_admission.Service.Bootstrap.{
  RawParent, absent, parent_value, RawHeader, HostSessionHeader, HostSession, Catalog,
  normalized_parent, normalized_header, header_of_id, header_with, is_own_parent, is_same_parent,
  add_over, add_header, add_persisted, add_live, is_id,
}
use dsh_subagent_admission.Service.Bootstrap.Ensures.{Ensures, Ensures-bind, Ensures-map}

-- The parent of a header that was read: there is none, or it is a text that is not empty.
abbrev pub IsParent : RawParent → Option String → Type 0
IsParent raw none = raw ≡ absent
IsParent raw (some parent) = (raw ≡ parent_value (text parent)) × (parent ≢ "")

-- The header is that of the session: its id is a text that is not empty, and it is not its own parent.
pub record IsHeaderOf (raw : RawHeader) (h : HostSessionHeader) : Type 0 where
  pub id : raw.id ≡ text h.id
  pub named : h.id ≢ ""
  pub parent : IsParent raw.parent_session h.parent_session
  pub other_parent : h.parent_session ≢ some h.id
  pub subagent : h.is_subagent ≡ raw.is_subagent

not_empty : (s : String) → is_empty s ≡ false → s ≢ ""
not_empty s e h = cc ((eq_iff s "").1 h, e)

normalized_parent-IsParent : (raw : RawParent) → Ensures (IsParent raw) (normalized_parent raw)
unfolding normalized_parent
normalized_parent-IsParent absent = refl
normalized_parent-IsParent (parent_value not_text) = tt
normalized_parent-IsParent (parent_value (text s)) = elim (Bool-cases (is_empty s)) [
  | inl e ↦ rw e tt
  | inr e ↦ rw e (refl, not_empty s e)
]

is_own_parent-false : (id : String) (o : Option String) → is_own_parent id o ≡ false → o ≢ some id
is_own_parent-false id none e h = cc
is_own_parent-false id (some parent) e h =
    let same : parent ≡ id = some_text parent id h in cc ((eq_iff parent id).1 same, e)
  where
    some_text : (a b : String) → some a ≡ some b → a ≡ b
    some_text a b e = cc

header_with-IsHeaderOf :
    (raw : RawHeader) (id : String)
    → raw.id ≡ text id
    → id ≢ ""
    → (parent : Option String) → IsParent raw.parent_session parent
    → Ensures (IsHeaderOf raw) (header_with id raw.is_subagent parent)
header_with-IsHeaderOf raw id e n parent p = elim (Bool-cases (is_own_parent id parent)) [
  | inl own ↦ rw own tt
  | inr other ↦ rw other (record {
    id = e;
    named = n;
    parent = p;
    other_parent = is_own_parent-false id parent other;
    subagent = refl;
  })
]

header_of_id-IsHeaderOf :
    (v : Value) (raw : RawHeader) → raw.id ≡ v → Ensures (IsHeaderOf raw) (header_of_id v raw)
header_of_id-IsHeaderOf not_text raw e = tt
header_of_id-IsHeaderOf (text id) raw e = elim (Bool-cases (is_empty id)) [
  | inl h ↦ rw h tt
  | inr h ↦ rw h (
      Ensures-bind (IsParent raw.parent_session) (IsHeaderOf raw)
        (normalized_parent raw.parent_session) (header_with id raw.is_subagent)
        (normalized_parent-IsParent raw.parent_session)
        (header_with-IsHeaderOf raw id e (not_empty id h)))
]

pub normalized_header-IsHeaderOf :
    (raw : RawHeader) → Ensures (IsHeaderOf raw) (normalized_header raw)
unfolding normalized_header
normalized_header-IsHeaderOf raw = header_of_id-IsHeaderOf raw.id raw refl

-- The catalog has the session with its parent.
abbrev pub IsIn : HostSessionHeader → Catalog → Type 0
IsIn h catalog =
    (k : HostSessionHeader) × (lookup h.id catalog ≡ some k)
    × (k.id ≡ h.id)
    × (k.parent_session ≡ h.parent_session)

-- No session is lost, and none changes its parent.
abbrev pub KeepsAll : Catalog → Catalog → Type 0
KeepsAll catalog later = (h : HostSessionHeader) → IsIn h catalog → IsIn h later

is_same_parent-true : (a b : Option String) → is_same_parent a b ≡ true → a ≡ b
is_same_parent-true none none e = refl
is_same_parent-true none (some s) e = cc
is_same_parent-true (some s) none e = cc
is_same_parent-true (some s) (some u) e = ap some ((eq_iff s u).0 e)

pub some_header : (a b : HostSessionHeader) → some a ≡ some b → a ≡ b
some_header a b e = cc

insert-lookup :
    (h : HostSessionHeader) (catalog : Catalog) (id : String)
    → h.id ≡ id
    → lookup id (insert h.id h catalog) ≡ some h
insert-lookup h catalog id e = ground (arith, lookup-insert h.id id h catalog, eq_iff h.id id, e)

insert-other :
    (h : HostSessionHeader) (catalog : Catalog) (id : String)
    → (h.id == id) ≡ false
    → lookup id (insert h.id h catalog) ≡ lookup id catalog
insert-other h catalog id e = ground (arith, lookup-insert h.id id h catalog, e)

-- The header is in the catalog that it was added to, which keeps the others.
abbrev pub Adds : Catalog → HostSessionHeader × Catalog → Type 0
Adds catalog (h, later) = KeepsAll catalog later × IsIn h later

insert-Adds :
    (h : HostSessionHeader) (catalog : Catalog)
    → ((k : HostSessionHeader) → lookup h.id catalog ≡ some k → k.parent_session ≡ h.parent_session)
    → Adds catalog (h, insert h.id h catalog)
insert-Adds h catalog agrees = (
  λ j (k, found, own, parent). elim (Bool-cases (h.id == j.id)) [
    | inl e ↦
        let same : h.id ≡ j.id = (eq_iff h.id j.id).0 e in
        let at = ap (λ (x : String). lookup x catalog) same ∙ found in
        (h, insert-lookup h catalog j.id same, same, sym (agrees k at) ∙ parent)
    | inr e ↦ (k, insert-other h catalog j.id e ∙ found, own, parent)
  ],
  (h, insert-lookup h catalog h.id refl, refl, refl),
)

add_over-Adds :
    (o : Option HostSessionHeader) (h : HostSessionHeader) (catalog : Catalog)
    → lookup h.id catalog ≡ o
    → Ensures
        (λ (r : HostSessionHeader × Catalog). (r.0 ≡ h) × Adds catalog r)
        (add_over o h catalog)
add_over-Adds none h catalog e =
    (refl, insert-Adds h catalog (λ k known. let bad : none ≡ some k = sym e ∙ known in cc))
add_over-Adds (some current) h catalog e =
    elim (Bool-cases (is_same_parent current.parent_session h.parent_session)) [
      | inl same ↦ rw same (
        refl,
        insert-Adds h catalog (λ k known.
            let one : current ≡ k = some_header current k (sym e ∙ known) in
            ap (λ (x : HostSessionHeader). x.parent_session) (sym one)
            ∙ is_same_parent-true current.parent_session h.parent_session same),
      )
      | inr differ ↦ rw differ tt
    ]

abbrev AddsRaw : RawHeader → Catalog → HostSessionHeader × Catalog → Type 0
AddsRaw raw catalog r = IsHeaderOf raw r.0 × Adds catalog r

add_header-Adds :
    (raw : RawHeader) (catalog : Catalog) → Ensures (AddsRaw raw catalog) (add_header raw catalog)
unfolding add_header
add_header-Adds raw catalog =
    Ensures-bind (IsHeaderOf raw) (AddsRaw raw catalog) (normalized_header raw)
      (λ h. add_over (lookup h.id catalog) h catalog) (normalized_header-IsHeaderOf raw)
      (λ h own.
        Ensures-map (λ (r : HostSessionHeader × Catalog). (r.0 ≡ h) × Adds catalog r)
          (AddsRaw raw catalog) (add_over (lookup h.id catalog) h catalog)
          (add_over-Adds (lookup h.id catalog) h catalog refl)
          (λ r k. (subst (IsHeaderOf raw) (sym k.0) own, k.1)))

-- A header that was listed is in the catalog.
abbrev pub IsListed : Catalog → RawHeader → Type 0
IsListed catalog raw = (h : HostSessionHeader) × IsHeaderOf raw h × IsIn h catalog

-- A live session is in the catalog under its own id.
abbrev pub IsListedLive : Catalog → HostSession → Type 0
IsListedLive catalog s =
    (h : HostSessionHeader) × IsHeaderOf s.header h × (s.id ≡ h.id) × IsIn h catalog

pub add_persisted-IsListed :
    (raws : List RawHeader) (catalog : Catalog)
    → Ensures
        (λ (later : Catalog). KeepsAll catalog later × All (IsListed later) raws)
        (add_persisted raws catalog)
unfolding add_persisted
add_persisted-IsListed [] catalog = (λ h k. k, tt)
add_persisted-IsListed (raw ∷ raws) catalog =
    Ensures-bind (AddsRaw raw catalog)
      (λ (later : Catalog). KeepsAll catalog later × All (IsListed later) (raw ∷ raws))
      (add_header raw catalog) (λ added. add_persisted raws added.1) (add_header-Adds raw catalog)
      (λ added own.
        Ensures-map (λ (later : Catalog). KeepsAll added.1 later × All (IsListed later) raws)
          (λ (later : Catalog). KeepsAll catalog later × All (IsListed later) (raw ∷ raws))
          (add_persisted raws added.1) (add_persisted-IsListed raws added.1)
          (λ later rest.
            (λ h k. rest.0 h (own.1.0 h k), ((added.0, own.0, rest.0 added.0 own.1.1), rest.1))))

is_id-same : (id other : String) (v : Value) → is_id id v ≡ true → v ≡ text other → id ≡ other
is_id-same id other not_text e h = cc
is_id-same id other (text t) e h = (eq_iff id t).0 e ∙ text-same t other h
  where
    text-same : (a b : String) → text a ≡ text b → a ≡ b
    text-same a b e = cc

abbrev AddsLive : HostSession → Catalog → HostSessionHeader × Catalog → Type 0
AddsLive s catalog r = (s.id ≡ r.0.id) × AddsRaw s.header catalog r

add_one-AddsLive :
    (s : HostSession) (catalog : Catalog)
    → Ensures (AddsLive s catalog) (
        if is_id s.id s.header.id
        then add_header s.header catalog
        else err "bootstrap-header-conflict")
add_one-AddsLive s catalog = elim (Bool-cases (is_id s.id s.header.id)) [
  | inl e ↦ rw e (
      Ensures-map (AddsRaw s.header catalog) (AddsLive s catalog) (add_header s.header catalog)
        (add_header-Adds s.header catalog)
        (λ r k. (is_id-same s.id r.0.id s.header.id e k.0.id, k)))
  | inr e ↦ rw e tt
]

pub add_live-IsListedLive :
    (sessions : List HostSession) (catalog : Catalog)
    → Ensures
        (λ (later : Catalog). KeepsAll catalog later × All (IsListedLive later) sessions)
        (add_live sessions catalog)
unfolding add_live
add_live-IsListedLive [] catalog = (λ h k. k, tt)
add_live-IsListedLive (s ∷ sessions) catalog =
    Ensures-bind (AddsLive s catalog)
      (λ (later : Catalog). KeepsAll catalog later × All (IsListedLive later) (s ∷ sessions))
      (if is_id s.id s.header.id
        then add_header s.header catalog
        else err "bootstrap-header-conflict")
      (λ added. add_live sessions added.1) (add_one-AddsLive s catalog)
      (λ added own.
        Ensures-map
          (λ (later : Catalog). KeepsAll added.1 later × All (IsListedLive later) sessions)
          (λ (later : Catalog). KeepsAll catalog later × All (IsListedLive later) (s ∷ sessions))
          (add_live sessions added.1) (add_live-IsListedLive sessions added.1)
          (λ later rest. (
            λ h k. rest.0 h (own.1.1.0 h k),
            ((added.0, own.1.0, own.0, rest.0 added.0 own.1.1.1), rest.1),
          )))
