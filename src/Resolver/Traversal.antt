-- ===== src/Resolver/Traversal.antt =====
-- root-resolver.ts, the traversal: its end, and the chains of headers that it finds.
use dsh_subagent_admission.Prelude.{
  ℕ, zero, suc, ◌+◌, ◌*◌, ◌≤◌, ◌<◌, ◌≡◌, refl, sym, ap, subst, ◌∙◌, ◌≢◌, ◌⊎◌, inl, inr, ◌↔◌, String,
  Option, none, some, false, List, [], ◌∷◌, ◌++◌, length, length-append, arith, eq_iff, Result, ok,
  err,
}
use mathlib.Core.List.{append_assoc}
use dsh_subagent_admission.Resolver.{
  Inspection, rejects, missing, header, Reading, ResolverError, out_of_fuel, max_traversal_headers,
  is_visited, visit, traverse, traversal_fuel,
}

-- The headers that the reader gives at its calls from the n-th on, from an id up to a root.
pub data Chain (reading : Reading) : ℕ → List String → Type 0 where
  root : {n : ℕ} {x : String} → reading.inspect n x ≡ header x none → Chain reading n (x ∷ [])
  child :
      {n : ℕ} {x y : String} {rest : List String}
      → reading.inspect n x ≡ header x (some y)
      → Chain reading (suc n) (y ∷ rest)
      → Chain reading n (x ∷ y ∷ rest)

-- No id of the second list stands in the first, or twice in the second.
abbrev pub IsNew : List String → List String → Type 0
IsNew path [] = Unit {0}
IsNew path (x ∷ xs) = (is_visited x path ≡ false) × IsNew (path ++ x ∷ []) xs

ok-injective :
    {a b : List String} → ◌≡◌ {A = Result ResolverError (List String)} (ok a) (ok b) → a ≡ b
ok-injective e = cc

module _ (reading : Reading) where
  out_of_fuel_fails :
      (n : ℕ) (current : String) (path out : List String)
      → traverse reading zero n current path ≢ ok out
  unfolding traverse
  out_of_fuel_fails n current path out e = cc

  visit-ok :
      (n : ℕ) (current : String) (path : List String) (parent : Option String)
      → visit reading n current path ≡ ok parent
      → (reading.inspect n current ≡ header current parent)
        × (is_visited current path ≡ false)
        × (length path < max_traversal_headers)
  unfolding visit
  visit-ok n current path parent e = go (reading.inspect n current) refl
    where
      go :
          (answer : Inspection)
          → reading.inspect n current ≡ answer
          → (reading.inspect n current ≡ header current parent)
            × (is_visited current path ≡ false)
            × (length path < max_traversal_headers)
      go rejects q = absurd (ground (arith, e, q))
      go missing q = absurd (ground (arith, e, q))
      go (header id p) q =
          ground (arith, e, q, eq_iff id current, length-append path (current ∷ []))

  visit-err :
      (n : ℕ) (current : String) (path : List String) (x : ResolverError)
      → visit reading n current path ≡ err x
      → x ≢ out_of_fuel
  unfolding visit
  visit-err n current path x e = ground arith

  -- A header that passes every check.
  visit-accepts :
      (n : ℕ) (current : String) (path : List String) (parent : Option String)
      → ((k : ℕ) → reading.is_aborted k ≡ false)
      → reading.inspect n current ≡ header current parent
      → is_visited current path ≡ false
      → length path < max_traversal_headers
      → visit reading n current path ≡ ok parent
  unfolding visit
  visit-accepts n current path parent quiet e new short = ground (
    arith,
    quiet (2 * n + 1),
    quiet (2 * n + 2),
    eq_iff current current,
    length-append path (current ∷ []),
  )

  traverse_unfold :
      (fuel n : ℕ) (current : String) (path : List String) (o : Option String)
      → visit reading n current path ≡ ok o
      → traverse reading (suc fuel) n current path ≡ elim o [
        | none ↦ ok (path ++ current ∷ [])
        | some parent ↦ traverse reading fuel (suc n) parent (path ++ current ∷ [])
      ]
  unfolding traverse
  traverse_unfold fuel n current path none e = rw (e, traverse) refl
  traverse_unfold fuel n current path (some p) e = rw (e, traverse) refl

  traverse_stops :
      (fuel n : ℕ) (current : String) (path : List String) (x : ResolverError)
      → visit reading n current path ≡ err x
      → traverse reading (suc fuel) n current path ≡ err x
  unfolding traverse
  traverse_stops fuel n current path x e = rw (e, traverse) refl

  visit-cases :
      (n : ℕ) (current : String) (path : List String)
      → ((x : ResolverError) × (visit reading n current path ≡ err x))
        ⊎ ((visit reading n current path ≡ ok none)
            ⊎ ((p : String) × (visit reading n current path ≡ ok (some p))))
  visit-cases n current path = go (visit reading n current path)
    where
      go :
          (v : Result ResolverError (Option String))
          → ((x : ResolverError) × (v ≡ err x))
            ⊎ ((v ≡ ok none) ⊎ ((p : String) × (v ≡ ok (some p))))
      go (err x) = inl (x, refl)
      go (ok none) = inr (inl refl)
      go (ok (some p)) = inr (inr (p, refl))

  -- The fuel is enough: one round more than the headers still allowed.
  traverse-ends :
      (fuel n : ℕ) (current : String) (path : List String)
      → max_traversal_headers < fuel + length path
      → length path ≤ max_traversal_headers
      → traverse reading fuel n current path ≢ err out_of_fuel
  traverse-ends zero n current path h k r = absurd (omega (arith, h, k))
  traverse-ends (suc fuel) n current path h k r = elim (visit-cases n current path) [
    | inl (x, q) ↦
        visit-err n current path x q (ground (arith, r, traverse_stops fuel n current path x q))
    | inr (inl q) ↦ cc (traverse_unfold fuel n current path none q)
    | inr (inr (p, q)) ↦
        let longer = length-append path (current ∷ []) in
        let short = (visit-ok n current path (some p) q).2 in
        traverse-ends fuel (suc n) p (path ++ current ∷ []) (omega (arith, h, longer))
          (omega (arith, longer, short)) (sym (traverse_unfold fuel n current path (some p) q) ∙ r)
  ]

  -- A result is the path so far and a chain of new headers, within the bound.
  pub record Found (n : ℕ) (current : String) (path out : List String) : Type 0 where
    pub rest : List String
    pub split : out ≡ path ++ current ∷ rest
    pub chain : Chain reading n (current ∷ rest)
    pub new : IsNew path (current ∷ rest)
    pub short : length out ≤ max_traversal_headers

  pub traverse-Found :
      (fuel n : ℕ) (current : String) (path out : List String)
      → traverse reading fuel n current path ≡ ok out
      → Found n current path out
  traverse-Found zero n current path out r = absurd (out_of_fuel_fails n current path out r)
  traverse-Found (suc fuel) n current path out r = elim (visit-cases n current path) [
    | inl (x, q) ↦ absurd (ground (arith, r, traverse_stops fuel n current path x q))
    | inr (inl q) ↦
        let (read, new, short) = visit-ok n current path none q in
        let same : out ≡ path ++ current ∷ [] =
          ok-injective (sym r ∙ traverse_unfold fuel n current path none q) in
        record {
          rest = [];
          split = same;
          chain = root read;
          new = (new, tt);
          short = omega (arith, ap length same, length-append path (current ∷ []), short);
        }
    | inr (inr (p, q)) ↦
        let (read, new, short) = visit-ok n current path (some p) q in
        let later =
          traverse-Found fuel (suc n) p (path ++ current ∷ []) out
            (sym (traverse_unfold fuel n current path (some p) q) ∙ r) in
        record {
          rest = p ∷ later.rest;
          split = later.split ∙ append_assoc path (current ∷ []) (p ∷ later.rest);
          chain = child read later.chain;
          new = (new, later.new);
          short = later.short;
        }
  ]

  -- A complete chain of new headers within the bound is found.
  traverse-finds :
      (fuel n : ℕ) (current : String) (path rest : List String)
      → ((k : ℕ) → reading.is_aborted k ≡ false)
      → Chain reading n (current ∷ rest)
      → IsNew path (current ∷ rest)
      → length path + length (current ∷ rest) ≤ max_traversal_headers
      → length (current ∷ rest) ≤ fuel
      → traverse reading fuel n current path ≡ ok (path ++ current ∷ rest)
  traverse-finds zero n current path rest quiet c new short fits = absurd (omega (arith, fits))
  traverse-finds (suc fuel) n current path [] quiet (root e) new short fits =
      traverse_unfold fuel n current path none
        (visit-accepts n current path none quiet e new.0 (omega (arith, short)))
  traverse-finds (suc fuel) n current path (y ∷ rest) quiet (child e c) new short fits =
      traverse_unfold fuel n current path (some y)
        (visit-accepts n current path (some y) quiet e new.0 (omega (arith, short)))
      ∙ traverse-finds fuel (suc n) y (path ++ current ∷ []) rest quiet c new.1
          (omega (arith, short, length-append path (current ∷ []))) (omega (arith, fits))
      ∙ ap ok (append_assoc path (current ∷ []) (y ∷ rest))

  -- A traversal always ends by its own checks: the fuel of the model is never used up.
  pub traverse_total :
      (start : String) → traverse reading traversal_fuel 0 start [] ≢ err out_of_fuel
  traverse_total start = traverse-ends traversal_fuel 0 start [] (omega arith) (omega arith)

  -- While nothing aborts, the traversal succeeds with a lineage if and only if that is the chain of
  -- headers from the starting id up to a header without a parent, without a repeated id and of at
  -- most 1,024 headers.
  pub traverse_decides :
      (start : String) (rest : List String)
      → ((k : ℕ) → reading.is_aborted k ≡ false)
      → (traverse reading traversal_fuel 0 start [] ≡ ok (start ∷ rest)) ↔ (
          Chain reading 0 (start ∷ rest)
          × IsNew [] (start ∷ rest)
          × (length (start ∷ rest) ≤ max_traversal_headers))
  traverse_decides start rest quiet = (
    (λ e.
        let f = traverse-Found traversal_fuel 0 start [] (start ∷ rest) e in
        let same : start ∷ f.rest ≡ start ∷ rest = sym f.split in
        (subst (Chain reading 0) same f.chain, subst (IsNew []) same f.new, f.short)),
    λ (c, new, short).
        traverse-finds traversal_fuel 0 start [] rest quiet c new (omega (arith, short))
          (omega (arith, short)),
  )
