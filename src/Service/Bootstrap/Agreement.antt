-- ===== src/Service/Bootstrap/Agreement.antt =====
-- service.ts, what a bootstrap that succeeds has found.
use dsh_subagent_admission.Prelude.{
  sym, lookup, some, Bool, true, if◌then◌else◌, Option, subst, ◌≡◌, Result, refl, ap, ◌∙◌, String,
  false, List, [], ◌∷◌, All, ◌==◌, ok, err, ◌>>=◌, Dict,
}
use dsh_subagent_admission.Resolver.{ResolvedLineage}
use dsh_subagent_admission.Telemetry.Snapshot.{Answer, answers, throws}
use dsh_subagent_admission.Service.Bootstrap.{
  RawHeader, HostSessionHeader, HostSession, Catalog, add_persisted, add_live,
  assert_no_live_subagents, ResolveError, bootstrap_failure, other_error, put_lineage, put_resolved,
  resolve_all, bootstrap_listed, bootstrap_sessions,
}
use dsh_subagent_admission.Service.Bootstrap.Ensures.{Ensures, Ensures-bind, Ensures-map}
use dsh_subagent_admission.Service.Bootstrap.Listed.{
  IsHeaderOf, IsIn, KeepsAll, IsListed, IsListedLive, some_header, add_persisted-IsListed,
  add_live-IsListedLive,
}
use dsh_subagent_admission.Service.Bootstrap.Roots.{
  Grows, HaveRoot, HaveRoot-Grows, put_lineage-Ensures,
}
use dsh_subagent_admission.Service.Bootstrap.Quiet.{AreQuiet, assert_no_live_subagents-AreQuiet}

module _ (resolve : String → Result ResolveError ResolvedLineage) where
  -- The resolver finds a root for the session, and every session on the way to it has that root.
  abbrev pub IsResolvedIn : Dict String → String × HostSessionHeader → Type 0
  IsResolvedIn roots entry =
      (r : ResolvedLineage) × (resolve entry.1.id ≡ ok r)
      × HaveRoot r.root_session_id r.lineage roots

  put_resolved-Ensures :
      (o : Result ResolveError ResolvedLineage) (id : String) (header : HostSessionHeader)
      (roots : Dict String)
      → resolve header.id ≡ o
      → Ensures
          (λ (later : Dict String). Grows roots later × IsResolvedIn later (id, header))
          (put_resolved o roots)
  put_resolved-Ensures (err (bootstrap_failure reason)) id header roots e = tt
  put_resolved-Ensures (err other_error) id header roots e = tt
  put_resolved-Ensures (ok r) id header roots e =
      Ensures-map
        (λ (later : Dict String). Grows roots later × HaveRoot r.root_session_id r.lineage later)
        (λ (later : Dict String). Grows roots later × IsResolvedIn later (id, header))
        (put_lineage r.root_session_id r.lineage roots)
        (put_lineage-Ensures r.root_session_id r.lineage roots) (λ later h. (h.0, (r, e, h.1)))

  IsResolvedIn-Grows :
      (roots later : Dict String) (entry : String × HostSessionHeader)
      → Grows roots later
      → IsResolvedIn roots entry
      → IsResolvedIn later entry
  IsResolvedIn-Grows roots later entry g (r, e, h) =
      (r, e, HaveRoot-Grows r.root_session_id r.lineage roots later g h)

  resolve_all-Ensures :
      (catalog : Catalog) (roots : Dict String)
      → Ensures
          (λ (later : Dict String). Grows roots later × All (IsResolvedIn later) catalog)
          (resolve_all resolve catalog roots)
  unfolding resolve_all
  resolve_all-Ensures [] roots = (λ s r h. h, tt)
  resolve_all-Ensures ((id, header) ∷ catalog) roots =
      Ensures-bind (λ (mid : Dict String). Grows roots mid × IsResolvedIn mid (id, header))
        (λ (later : Dict String).
          Grows roots later × All (IsResolvedIn later) ((id, header) ∷ catalog))
        (put_resolved (resolve header.id) roots) (resolve_all resolve catalog)
        (put_resolved-Ensures (resolve header.id) id header roots refl)
        (λ mid one.
          Ensures-map (λ (later : Dict String). Grows mid later × All (IsResolvedIn later) catalog)
            (λ (later : Dict String).
              Grows roots later × All (IsResolvedIn later) ((id, header) ∷ catalog))
            (resolve_all resolve catalog mid) (resolve_all-Ensures catalog mid)
            (λ later rest. (
              λ s r h. rest.0 s r (one.0 s r h),
              (IsResolvedIn-Grows mid later (id, header) rest.0 one.1, rest.1),
            )))

  found-resolved :
      (is_found : Bool) (roots : Dict String) (h k : HostSessionHeader)
      (rest : Option HostSessionHeader)
      → IsResolvedIn roots (h.id, h)
      → (rest ≡ some k → IsResolvedIn roots (k.id, k))
      → (if is_found then some h else rest) ≡ some k
      → IsResolvedIn roots (k.id, k)
  found-resolved true roots h k rest own later e =
      subst (λ (x : HostSessionHeader). IsResolvedIn roots (x.id, x)) (some_header h k e) own
  found-resolved false roots h k rest own later e = later e

  -- What is found in the catalog is one of its entries.
  IsIn-resolved :
      (catalog : Catalog) (roots : Dict String) (id : String) (k : HostSessionHeader)
      → All (IsResolvedIn roots) catalog
      → lookup id catalog ≡ some k
      → IsResolvedIn roots (k.id, k)
  unfolding lookup
  IsIn-resolved [] roots id k all e = cc
  IsIn-resolved ((x, h) ∷ catalog) roots id k all e =
      found-resolved (x == id) roots h k (lookup id catalog) all.0
        (λ later. IsIn-resolved catalog roots id k all.1 later) e

  -- The session is in the catalog, a root is found for it, and every session on the way has that root.
  abbrev pub IsPlaced : Catalog → Dict String → HostSessionHeader → Type 0
  IsPlaced catalog roots h =
      IsIn h catalog
      × ((r : ResolvedLineage) × (resolve h.id ≡ ok r) × HaveRoot r.root_session_id r.lineage roots)

  abbrev pub IsPlacedRaw : Catalog → Dict String → RawHeader → Type 0
  IsPlacedRaw catalog roots raw =
      (h : HostSessionHeader) × IsHeaderOf raw h × IsPlaced catalog roots h

  abbrev pub IsPlacedLive : Catalog → Dict String → HostSession → Type 0
  IsPlacedLive catalog roots s =
      (h : HostSessionHeader) × IsHeaderOf s.header h × (s.id ≡ h.id) × IsPlaced catalog roots h

  IsIn-IsPlaced :
      (catalog : Catalog) (roots : Dict String) (h : HostSessionHeader)
      → All (IsResolvedIn roots) catalog
      → IsIn h catalog
      → IsPlaced catalog roots h
  IsIn-IsPlaced catalog roots h all (k, found, own, parent) =
      let (r, e, have) = IsIn-resolved catalog roots h.id k all found in
      ((k, found, own, parent), (r, ap resolve (sym own) ∙ e, have))

  All-IsPlacedRaw :
      (catalog : Catalog) (roots : Dict String) (raws : List RawHeader)
      → All (IsResolvedIn roots) catalog
      → All (IsListed catalog) raws
      → All (IsPlacedRaw catalog roots) raws
  All-IsPlacedRaw catalog roots [] all listed = tt
  All-IsPlacedRaw catalog roots (raw ∷ raws) all ((h, own, at), rest) =
      ((h, own, IsIn-IsPlaced catalog roots h all at), All-IsPlacedRaw catalog roots raws all rest)

  All-IsPlacedLive :
      (catalog : Catalog) (roots : Dict String) (sessions : List HostSession)
      → All (IsResolvedIn roots) catalog
      → All (IsListedLive catalog) sessions
      → All (IsPlacedLive catalog roots) sessions
  All-IsPlacedLive catalog roots [] all listed = tt
  All-IsPlacedLive catalog roots (s ∷ sessions) all ((h, own, id, at), rest) = (
    (h, own, id, IsIn-IsPlaced catalog roots h all at),
    All-IsPlacedLive catalog roots sessions all rest,
  )

  -- Every session that was listed is placed, and no subagent lives.
  abbrev pub Agrees :
      List RawHeader → List HostSession → Answer (List HostSession) → Catalog × Dict String → Type 0
  Agrees persisted live later (catalog, roots) =
      All (IsPlacedRaw catalog roots) persisted
      × All (IsPlacedLive catalog roots) live
      × All (IsResolvedIn roots) catalog
      × AreQuiet later

  abbrev pub AgreesWith :
      Answer (List RawHeader)
      → Answer (List HostSession)
      → Answer (List HostSession)
      → Catalog × Dict String
      → Type 0
  AgreesWith throws live later found = ⊥
  AgreesWith (answers persisted) throws later found = ⊥
  AgreesWith (answers persisted) (answers live) later found = Agrees persisted live later found

  finish-Agrees :
      (persisted : List RawHeader) (live : List HostSession) (later : Answer (List HostSession))
      (full : Catalog)
      → All (IsListed full) persisted
      → All (IsListedLive full) live
      → Ensures (Agrees persisted live later) (
          assert_no_live_subagents later >>= λ _.
          resolve_all resolve full [] >>= λ roots. ok (full, roots))
  finish-Agrees persisted live later full p l =
      Ensures-bind (λ (u : Unit {0}). AreQuiet later) (Agrees persisted live later)
        (assert_no_live_subagents later)
        (λ _. resolve_all resolve full [] >>= λ roots. ok (full, roots))
        (assert_no_live_subagents-AreQuiet later)
        (λ u quiet.
          Ensures-bind (λ (roots : Dict String). Grows [] roots × All (IsResolvedIn roots) full)
            (Agrees persisted live later) (resolve_all resolve full []) (λ roots. ok (full, roots))
            (resolve_all-Ensures full [])
            (λ roots h. (
              All-IsPlacedRaw full roots persisted h.1 p,
              All-IsPlacedLive full roots live h.1 l,
              h.1,
              quiet,
            )))

  All-IsListed :
      (catalog later : Catalog) (raws : List RawHeader)
      → KeepsAll catalog later
      → All (IsListed catalog) raws
      → All (IsListed later) raws
  All-IsListed catalog later [] keeps all = tt
  All-IsListed catalog later (raw ∷ raws) keeps ((h, own, at), rest) =
      ((h, own, keeps h at), All-IsListed catalog later raws keeps rest)

  listed-Agrees :
      (persisted : List RawHeader) (live : List HostSession) (later : Answer (List HostSession))
      → Ensures (Agrees persisted live later) (bootstrap_listed resolve persisted live later)
  listed-Agrees persisted live later =
      Ensures-bind (λ (catalog : Catalog). KeepsAll [] catalog × All (IsListed catalog) persisted)
        (Agrees persisted live later) (add_persisted persisted [])
        (λ catalog. add_live live catalog >>= λ full. assert_no_live_subagents later >>= λ _.
          resolve_all resolve full [] >>= λ roots. ok (full, roots))
        (add_persisted-IsListed persisted [])
        (λ catalog p.
          Ensures-bind (λ (full : Catalog). KeepsAll catalog full × All (IsListedLive full) live)
            (Agrees persisted live later) (add_live live catalog)
            (λ full. assert_no_live_subagents later >>= λ _.
              resolve_all resolve full [] >>= λ roots. ok (full, roots))
            (add_live-IsListedLive live catalog)
            (λ full l.
              finish-Agrees persisted live later full (All-IsListed catalog full persisted l.0 p.1)
                l.1))

  -- A bootstrap that succeeds has, for every session that was listed, persisted or live, a sound header,
  -- a place in its catalog with the parent of that header, and a root: the resolver finds it, and every
  -- session of its lineage has that root, so that no two lineages disagree. Each session of the catalog
  -- was resolved, and each live session was found at the end under its own id, and was no subagent.
  pub bootstrap_agrees :
      (persisted : Answer (List RawHeader)) (live later : Answer (List HostSession))
      → Ensures (AgreesWith persisted live later) (bootstrap_sessions resolve persisted live later)
  unfolding bootstrap_sessions
  bootstrap_agrees throws live later = tt
  bootstrap_agrees (answers persisted) throws later = tt
  bootstrap_agrees (answers persisted) (answers live) later = listed-Agrees persisted live later
