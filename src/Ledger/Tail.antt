-- ===== src/Ledger/Tail.antt =====
-- ledger.ts, the promise tail: `reserveNew`, `read` and `close` as they interleave. A promise job is a
-- step of the environment's choice; the tail runs its operations one after another.
use dsh_subagent_admission.Prelude.{
  ◌≡◌, refl, sym, ap, subst, ◌∙◌, String, Bool, true, false, List, [], ◌∷◌, ◌++◌, arith, is_empty,
  if◌then◌else◌, not,
}
use mathlib.Core.List.{append_assoc, append-nil}
use dsh_subagent_admission.Ledger.{
  ReserveNewInput, LedgerState, is_valid_reservation, Storage, CallbackOutcome, reserve_new_locked,
}

-- An operation that waits in the tail.
pub data Operation (E : Type 0) : Type 0 where
  reserve : ReserveNewInput → CallbackOutcome E → Operation E
  read : String → Operation E

-- Closing: not begun, waiting for the tail, or done with the domain closed.
pub data Closing : Type 0 where
  not_closing waits_for_tail domain_closed : Closing

pub record Store (E : Type 0) : Type 0 where
  pub ledger : LedgerState
  pub closed : Bool
  pub closing : Closing
  pub tail : List (Operation E)

module _ {E : Type 0} where
  -- What `reserveNew` and `read` check before they enqueue.
  unfoldable pub admits : Store E → Operation E → Bool
  admits s (reserve input callback) = if s.closed then false else is_valid_reservation input
  admits s (read root) = if s.closed then false else not (is_empty root)

  -- A call appends its operation to the tail, or is rejected at once.
  unfoldable pub request : Store E → Operation E → Store E × Bool
  unfolding admits
  request s op = if admits s op then (record s { tail = s.tail ++ op ∷ [] }, true) else (s, false)

  unfoldable pub close_at : Closing → Store E → Store E
  close_at not_closing s = record s { closed = true; closing = waits_for_tail }
  close_at waits_for_tail s = s
  close_at domain_closed s = s

  -- `close`: a second call returns the first one's promise.
  unfoldable pub close : Store E → Store E
  unfolding close_at
  close s = close_at s.closing s

  unfoldable pub perform : Storage → LedgerState → Operation E → LedgerState
  perform storage l (reserve input callback) = (reserve_new_locked storage l input callback).1
  perform storage l (read root) = l

  -- A history of jobs, with the operations accepted and those performed so far. One job runs the
  -- head of the tail; with the tail empty a waiting close closes the domain.
  pub data Run (s : Store E) : List (Operation E) → List (Operation E) → Store E → Type 0 where
    here : Run s [] [] s
    accepts :
        {a p : List (Operation E)} {t : Store E} (op : Operation E)
        → Run s a p t
        → (request t op).1 ≡ true
        → Run s (a ++ op ∷ []) p (request t op).0
    refuses :
        {a p : List (Operation E)} {t : Store E} (op : Operation E)
        → Run s a p t
        → (request t op).1 ≡ false
        → Run s a p (request t op).0
    closes : {a p : List (Operation E)} {t : Store E} → Run s a p t → Run s a p (close t)
    performs :
        {a p : List (Operation E)} {t u : Store E} (storage : Storage) (op : Operation E)
        (rest : List (Operation E))
        → Run s a p t
        → t.tail ≡ op ∷ rest
        → u ≡ record t { ledger = perform storage t.ledger op; tail = rest }
        → Run s a (p ++ op ∷ []) u
    closes_domain :
        {a p : List (Operation E)} {t u : Store E}
        → Run s a p t
        → t.closing ≡ waits_for_tail
        → t.tail ≡ []
        → u ≡ record t { closing = domain_closed }
        → Run s a p u

  -- No operation waits once the domain is closed, and closing has begun if and only if `closed` is
  -- set.
  pub record IsValid (s : Store E) : Type 0 where
    pub drained : s.closing ≡ domain_closed → s.tail ≡ []
    pub closed_first : s.closed ≡ false → s.closing ≡ not_closing
    pub open_first : s.closing ≡ not_closing → s.closed ≡ false

  request-IsValid : (s : Store E) (op : Operation E) → IsValid s → IsValid (request s op).0
  unfolding request
  request-IsValid s (reserve input callback) v = ground arith
  request-IsValid s (read root) v = ground arith

  close_at-IsValid :
      (c : Closing) (s : Store E) → s.closing ≡ c → IsValid s → IsValid (close_at c s)
  unfolding close_at
  close_at-IsValid not_closing s e v = ground arith
  close_at-IsValid waits_for_tail s e v = v
  close_at-IsValid domain_closed s e v = v

  pub Run-IsValid : {s t : Store E} {a p : List (Operation E)} → IsValid s → Run s a p t → IsValid t
  unfolding close
  Run-IsValid v here = v
  Run-IsValid v (accepts {t = t} op r e) = request-IsValid t op (Run-IsValid v r)
  Run-IsValid v (refuses {t = t} op r e) = request-IsValid t op (Run-IsValid v r)
  Run-IsValid v (closes {t = t} r) = close_at-IsValid t.closing t refl (Run-IsValid v r)
  Run-IsValid v (performs storage op rest r e u) = let w = Run-IsValid v r in ground arith
  Run-IsValid v (closes_domain r c e u) = let w = Run-IsValid v r in ground arith

  request-tail :
      (s : Store E) (op : Operation E)
      → (request s op).0.tail ≡ (if (request s op).1 then s.tail ++ op ∷ [] else s.tail)
  unfolding request
  request-tail s (reserve input callback) = ground arith
  request-tail s (read root) = ground arith

  close_at-tail : (c : Closing) (s : Store E) → (close_at c s).tail ≡ s.tail
  unfolding close_at
  close_at-tail not_closing s = refl
  close_at-tail waits_for_tail s = refl
  close_at-tail domain_closed s = refl

  -- Operations are performed in the order in which they were accepted: what was performed, followed by
  -- what waits, is what waited at the start, followed by what was accepted since.
  pub Run-in_order :
      {s t : Store E} {a p : List (Operation E)} → Run s a p t → p ++ t.tail ≡ s.tail ++ a
  unfolding close
  Run-in_order {s} here = sym (append-nil s.tail)
  Run-in_order {s} (accepts {a = a} {p = p} {t = t} op r e) =
      rw (request-tail t op, e)
        (sym (append_assoc p t.tail (op ∷ []))
          ∙ ap (λ l. l ++ op ∷ []) (Run-in_order r)
          ∙ append_assoc s.tail a (op ∷ []))
  Run-in_order {s} (refuses {a = a} {p = p} {t = t} op r e) =
      rw (request-tail t op, e) (Run-in_order r)
  Run-in_order (closes {t = t} r) = rw (close_at-tail t.closing t) (Run-in_order r)
  Run-in_order (performs {p = p} storage op rest r e u) =
      rw (ap (λ (x : Store E). x.tail) u)
        (append_assoc p (op ∷ []) rest ∙ ap (λ l. p ++ l) (sym e) ∙ Run-in_order r)
  Run-in_order (closes_domain r c e u) = let ih = Run-in_order r in ground (arith, ih)

  -- When the domain is closed, every accepted operation has been performed, each once and in order.
  pub closed_after_all :
      (s t : Store E) (a p : List (Operation E))
      → IsValid s
      → Run s a p t
      → t.closing ≡ domain_closed
      → p ≡ s.tail ++ a
  closed_after_all s t a p v r e =
      sym (append-nil p) ∙ ap (λ l. p ++ l) (sym ((Run-IsValid v r).drained e)) ∙ Run-in_order r

  drain_from :
      (l : List (Operation E)) (s t : Store E) (a p : List (Operation E)) (storage : Storage)
      → t.tail ≡ l
      → t.closing ≡ waits_for_tail
      → Run s a p t
      → (u : Store E) × Run s a (p ++ l) u × (u.closing ≡ domain_closed)
  drain_from [] s t a p storage e c r = (
    record t { closing = domain_closed },
    subst (λ q. Run s a q (record t { closing = domain_closed })) (sym (append-nil p))
        (closes_domain r c e refl),
    refl,
  )
  drain_from (op ∷ rest) s t a p storage e c r =
      let next = record t { ledger = perform storage t.ledger op; tail = rest } in
      let (u, h, d) =
        drain_from rest s next a (p ++ op ∷ []) storage refl c
          (performs storage op rest r e refl) in
      (u, subst (λ q. Run s a q u) (append_assoc p (op ∷ []) rest) h, d)

  -- `close` completes whatever the storage answers: after it the jobs of the tail lead to a closed
  -- domain, with nothing more accepted.
  pub close_completes :
      (s : Store E) (storage : Storage)
      → s.closing ≡ not_closing
      → (t : Store E) × Run (close s) [] (s.tail) t × (t.closing ≡ domain_closed)
  unfolding close
  close_completes s storage e =
      drain_from s.tail (close s) (close s) [] [] storage (close_at-tail s.closing s)
        (rw (e, close_at) refl) here

  -- Once `close` was called nothing is accepted.
  pub closed_refuses :
      (s : Store E) (op : Operation E) → IsValid s → (request (close s) op).1 ≡ false
  unfolding request close
  closed_refuses s (reserve input callback) v = ground (arith, v)
  closed_refuses s (read root) v = ground (arith, v)
