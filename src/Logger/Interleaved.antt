-- ===== src/Logger/Interleaved.antt =====
-- Calls of Handle of internal/logger/logger.go that run at the same time: each seals its entry
-- under the mutex, writes it under the mutex, and then sends it to the queue, and rounds of
-- dispatchLoop come between.
use agent_ssh.Base.{
  ◌≤◌, ◌≡◌, refl, ap, subst, ◌∙◌, inl, inr, true, false, Option, some, List, [], ◌∷◌, ◌++◌, arith,
  All, All-append, All-mono, All-split, length, length-append, ltb, ltb→lt, Bool-cases,
}
use mathlib.Core.List.{append_assoc}
use agent_ssh.Base.Result.{ok, err}
use agent_ssh.Logger.Entry.{Entry, Crypto, decoded}
use agent_ssh.Logger.Handler.{
  Record, HandleError, queue_size, Logger, seal, append, enqueue, dispatch,
}
use agent_ssh.Logger.Replica.{seal_rest, dispatch_moves}

-- An element of a list and where it stands.
abbrev pub Stands {ℓ} : {A : Type ℓ} → A → List A → Type ℓ
Stands {A = A} x xs = (front : List A) × (back : List A) × (xs ≡ front ++ x ∷ back)

Stands-append {ℓ} : {A : Type ℓ} (x y : A) (xs : List A) → Stands x xs → Stands x (xs ++ y ∷ [])
Stands-append x y xs (front, back, e) =
    (front, back ++ y ∷ [], ap (λ l. l ++ y ∷ []) e ∙ append_assoc front (x ∷ back) (y ∷ []))

Stands-last {ℓ} : {A : Type ℓ} (x : A) (xs : List A) → Stands x (xs ++ x ∷ [])
Stands-last x xs = (xs, [], refl)

All-without {ℓ κ} :
    {A : Type ℓ} (P : A → Type κ) (front back : List A) (x : A)
    → All P (front ++ x ∷ back)
    → P x × All P (front ++ back)
All-without P front back x h =
    let (a, b) = All-split P front (x ∷ back) h in (b.0, All-append P front back a b.1)

module _ (c : Crypto) where
  open c use {Attrs}

  -- The entries of the calls that have sealed and not yet written, and that have written and not yet
  -- sent to the queue.
  pub record State : Type 0 where
    pub logger : Logger c
    pub sealed : List (Entry Attrs)
    pub written : List (Entry Attrs)

  pub data Step : State → State → Type 0 where
    seals :
        (s : State) (r : Record Attrs) (e : Entry Attrs)
        → (seal c r s.logger).1 ≡ ok e
        → Step s (record s { logger = (seal c r s.logger).0; sealed = e ∷ s.sealed })
    refuses :
        (s : State) (r : Record Attrs) (x : HandleError)
        → (seal c r s.logger).1 ≡ err x
        → Step s (record s { logger = (seal c r s.logger).0 })
    writes :
        (s : State) (front back : List (Entry Attrs)) (e : Entry Attrs)
        → s.sealed ≡ front ++ e ∷ back
        → Step s (record {
          logger = (append c true e s.logger).0;
          sealed = front ++ back;
          written = e ∷ s.written;
        })
    breaks :
        (s : State) (front back : List (Entry Attrs)) (e : Entry Attrs)
        → s.sealed ≡ front ++ e ∷ back
        → Step s (record s { logger = (append c false e s.logger).0; sealed = front ++ back })
    queues :
        (s : State) (front back : List (Entry Attrs)) (e : Entry Attrs)
        → s.written ≡ front ++ e ∷ back
        → Step s (record s { logger = enqueue c e s.logger; written = front ++ back })
    dispatches : (s : State) → Step s (record s { logger = dispatch c s.logger })

  pub data Reaches : State → State → Type 0 where
    stays : (s : State) → Reaches s s
    goes_on : (s t u : State) → Reaches s t → Step t u → Reaches s u

  -- An entry has its line in a file.
  abbrev pub Logged : List (Option (Entry Attrs)) → Entry Attrs → Type 0
  Logged file e = Stands (some (decoded c e)) file

  pub record Safe (s : State) : Type 0 where
    pub sent : All (Logged s.logger.file) (s.logger.sent ++ s.logger.queue)
    pub pending : All (Logged s.logger.file) s.written
    pub bounded : length s.logger.queue ≤ queue_size

  Logged-append :
      (file : List (Option (Entry Attrs))) (l : Option (Entry Attrs)) (es : List (Entry Attrs))
      → All (Logged file) es
      → All (Logged (file ++ l ∷ [])) es
  Logged-append file l es h =
      All-mono (Logged file) (Logged (file ++ l ∷ [])) es
        (λ x p. Stands-append (some (decoded c x)) l file p) h

  enqueue-Safe :
      (t : Logger c) (e : Entry Attrs) (waiting sealed : List (Entry Attrs))
      → Logged t.file e
      → All (Logged t.file) (t.sent ++ t.queue)
      → All (Logged t.file) waiting
      → length t.queue ≤ queue_size
      → Safe (record { logger = enqueue c e t; sealed = sealed; written = waiting })
  unfolding enqueue
  enqueue-Safe t e waiting sealed l h p b = elim (Bool-cases (ltb (length t.queue) queue_size)) [
    | inl f ↦
        rw (enqueue, f)
          (record {
            sent =
                subst (λ x. All (Logged t.file) x) (append_assoc t.sent t.queue (e ∷ []))
                  (All-append (Logged t.file) (t.sent ++ t.queue) (e ∷ []) h (l, tt));
            pending = p;
            bounded =
                omega (arith, length-append t.queue (e ∷ []), ltb→lt (length t.queue) queue_size f);
          })
    | inr f ↦ rw (enqueue, f) (record { sent = h; pending = p; bounded = b })
  ]

  Step-Safe : (s t : State) → Step s t → Safe s → Safe t
  Step-Safe s t (seals _ r e q) h =
      let (f, g, k) = seal_rest c r s.logger in
      record { sent = rw (f, g, k) h.sent; pending = rw f h.pending; bounded = rw g h.bounded }
  Step-Safe s t (refuses _ r x q) h =
      let (f, g, k) = seal_rest c r s.logger in
      record { sent = rw (f, g, k) h.sent; pending = rw f h.pending; bounded = rw g h.bounded }
  Step-Safe s t (writes _ front back e q) h =
      unfold append in
      record {
        sent =
            Logged-append s.logger.file (some (decoded c e)) (s.logger.sent ++ s.logger.queue)
              h.sent;
        pending = (
          Stands-last (some (decoded c e)) s.logger.file,
          Logged-append s.logger.file (some (decoded c e)) s.written h.pending,
        );
        bounded = h.bounded;
      }
  Step-Safe s t (breaks _ front back e q) h =
      unfold append in record { sent = h.sent; pending = h.pending; bounded = h.bounded }
  Step-Safe s t (queues _ front back e q) h =
      let (l, p) =
        All-without (Logged s.logger.file) front back e
          (subst (λ x. All (Logged s.logger.file) x) q h.pending) in
      enqueue-Safe s.logger e (front ++ back) s.sealed l h.sent p h.bounded
  Step-Safe s t (dispatches _) h =
      let (f, q, a) = dispatch_moves c s.logger in
      record {
        sent = rw (f, q) h.sent;
        pending = rw f h.pending;
        bounded = omega (arith, a, h.bounded);
      }

  -- However calls of Handle and rounds of dispatchLoop interleave, every entry that was sent or
  -- waits in the queue has its line in the log file, and no more than 4096 wait, if this is so at
  -- the start.
  pub Reaches-Safe : (s t : State) → Reaches s t → Safe s → Safe t
  Reaches-Safe s t (stays _) h = h
  Reaches-Safe s u (goes_on _ t _ r x) h = Step-Safe t u x (Reaches-Safe s t r h)
