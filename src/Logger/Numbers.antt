-- ===== src/Logger/Numbers.antt =====
-- The numbers that calls of Handle of internal/logger/logger.go take when they run at the same time.
use agent_ssh.Base.{
  ℕ, ◌+◌, ◌^◌, ◌≤◌, ◌<◌, ◌≡◌, refl, ◌∙◌, Bool, true, false, Option, none, some, List, [], ◌∷◌, ◌++◌,
  arith, ◌==◌, if◌then◌else◌, ltb, length, Bool-cases, inl, inr,
}
use agent_ssh.Base.Result.{ok}
use agent_ssh.Logger.Entry.{Entry, Crypto, decoded}
use agent_ssh.Logger.Handler.{Record, queue_size, Logger, seal, append, enqueue, dispatch}
use agent_ssh.Logger.Sealing.{seal_keeps, seal_ok}
use agent_ssh.Logger.Chain.{Sealed-seq}
use agent_ssh.Logger.Replica.{dispatch_moves}
use agent_ssh.Logger.Interleaved.{
  State, Step, seals, refuses, writes, breaks, queues, dispatches, Reaches, stays, goes_on,
}

-- How many elements pass.
unfoldable pub tally {ℓ} : {A : Type ℓ} → (A → Bool) → List A → ℕ
tally p [] = 0
tally p (x ∷ xs) = (if p x then 1 else 0) + tally p xs

tally-++ {ℓ} :
    {A : Type ℓ} (p : A → Bool) (xs ys : List A) → tally p (xs ++ ys) ≡ tally p xs + tally p ys
unfolding tally
tally-++ p [] ys = omega arith
tally-++ p (x ∷ xs) ys = omega (arith, tally-++ p xs ys)

module _ (c : Crypto) where
  open c use {Attrs}

  abbrev pub bears : ℕ → Entry Attrs → Bool
  bears n e = e.seq == n

  abbrev pub line_bears : ℕ → Option (Entry Attrs) → Bool
  line_bears n none = false
  line_bears n (some e) = e.seq == n

  -- How often a number has been given to an entry that is sealed or written.
  unfoldable pub uses : ℕ → State c → ℕ
  uses n s = tally (bears n) s.sealed + tally (line_bears n) s.logger.file

  -- No number has been given twice, nor one above the counter.
  pub record Numbered (s : State c) : Type 0 where
    pub once : (n : ℕ) → uses n s ≤ 1
    pub above : (n : ℕ) → s.logger.seq < n → uses n s ≡ 0

  -- How many numbers a step takes, and how many are taken on the way.
  abbrev pub cost : (s t : State c) → Step c s t → ℕ
  cost s t (seals _ _ _ _) = 1
  cost s t (refuses _ _ _ _) = 1
  cost s t _ = 0

  abbrev pub taken : (s t : State c) → Reaches c s t → ℕ
  taken s t (stays _) = 0
  taken s u (goes_on _ t _ r x) = taken s t r + cost t u x

  -- A step that neither takes a number nor changes how often each is used.
  same-Numbered :
      (s t : State c)
      → t.logger.seq ≡ s.logger.seq
      → ((n : ℕ) → uses n t ≤ uses n s)
      → Numbered s
      → Numbered t
  same-Numbered s t q less h = record {
    once = λ n. omega (arith, less n, h.once n);
    above = λ n big. omega (arith, less n, h.above n (omega (arith, q, big)));
  }

  -- A number is taken for an entry that is sealed, or for none.
  taken-Numbered :
      (s t : State c)
      → t.logger.seq ≡ s.logger.seq + 1
      → ((n : ℕ) → uses n t ≤ (if (s.logger.seq + 1) == n then 1 else 0) + uses n s)
      → Numbered s
      → Numbered t
  taken-Numbered s t q less h = record {
    once = λ n. elim (Bool-cases ((s.logger.seq + 1) == n)) [
      | inl e ↦ let k = rw e at (less n) in let z = h.above n (ground arith) in omega (arith, k, z)
      | inr e ↦ let k = rw e at (less n) in omega (arith, k, h.once n)
    ];
    above = λ n big. elim (Bool-cases ((s.logger.seq + 1) == n)) [
      | inl e ↦ absurd (ground arith)
      | inr e ↦
          let k = rw e at (less n) in
          let z = h.above n (omega (arith, q, big)) in omega (arith, k, z)
    ];
  }

  seal-uses :
      (s : State c) (r : Record Attrs) (e : Entry Attrs) (n : ℕ)
      → s.logger.seq + 1 < 2 ^ 64
      → (seal c r s.logger).1 ≡ ok e
      → uses n (record s { logger = (seal c r s.logger).0; sealed = e ∷ s.sealed })
        ≡ (if (s.logger.seq + 1) == n then 1 else 0) + uses n s
  unfolding uses tally
  seal-uses s r e n small h =
      let number : e.seq ≡ s.logger.seq + 1 =
        unfold decoded in Sealed-seq c r s.logger e (seal_ok c r s.logger e h) ∙ omega arith in
      rw ((seal_keeps c r s.logger).0, number) (omega arith)

  write-uses :
      (s : State c) (front back : List (Entry Attrs)) (e : Entry Attrs) (n : ℕ)
      → s.sealed ≡ front ++ e ∷ back
      → uses n (record {
        logger = (append c true e s.logger).0;
        sealed = front ++ back;
        written = e ∷ s.written;
      })
        ≡ uses n s
  unfolding uses append tally decoded
  write-uses s front back e n q = rw q (
      omega (
        arith,
        tally-++ (bears n) front back,
        tally-++ (bears n) front (e ∷ back),
        tally-++ (line_bears n) s.logger.file (some (decoded c e) ∷ []),
      ))

  break-uses :
      (s : State c) (front back : List (Entry Attrs)) (e : Entry Attrs) (n : ℕ)
      → s.sealed ≡ front ++ e ∷ back
      → uses n (record s { logger = (append c false e s.logger).0; sealed = front ++ back })
        ≤ uses n s
  unfolding uses append tally
  break-uses s front back e n q =
      rw q (omega (arith, tally-++ (bears n) front back, tally-++ (bears n) front (e ∷ back)))

  enqueue_rest :
      (e : Entry Attrs) (t : Logger c)
      → ((enqueue c e t).file ≡ t.file) × ((enqueue c e t).seq ≡ t.seq)
  unfolding enqueue
  enqueue_rest e t = elim (Bool-cases (ltb (length t.queue) queue_size)) [
    | inl f ↦ rw (enqueue, f) (refl, refl)
    | inr f ↦ rw (enqueue, f) (refl, refl)
  ]

  queue_seq : (t : Logger c) (q : List (Entry Attrs)) → t.queue ≡ q → (dispatch c t).seq ≡ t.seq
  unfolding dispatch
  queue_seq t [] h = rw (dispatch, h) refl
  queue_seq t (e ∷ es) h = rw (dispatch, h) refl

  dispatch_seq : (t : Logger c) → (dispatch c t).seq ≡ t.seq
  dispatch_seq t = queue_seq t t.queue refl

  Step-Numbered :
      (s t : State c) (x : Step c s t)
      → s.logger.seq + cost s t x < 2 ^ 64
      → Numbered s
      → Numbered t × (t.logger.seq ≡ s.logger.seq + cost s t x)
  Step-Numbered s t (seals _ r e q) small h =
      let up : (seal c r s.logger).0.seq ≡ s.logger.seq + 1 =
        (seal_keeps c r s.logger).1 ∙ omega arith in
      (taken-Numbered s _ up (λ n. omega (arith, seal-uses s r e n small q)) h, up)
  Step-Numbered s t (refuses _ r x q) small h =
      let up : (seal c r s.logger).0.seq ≡ s.logger.seq + 1 =
        (seal_keeps c r s.logger).1 ∙ omega arith in
      (
        taken-Numbered s _ up (λ n. unfold uses in rw ((seal_keeps c r s.logger).0) (omega arith))
            h,
        up,
      )
  Step-Numbered s t (writes _ front back e q) small h =
      let same : (append c true e s.logger).0.seq ≡ s.logger.seq = unfold append in refl in
      (
        same-Numbered s _ same (λ n. omega (arith, write-uses s front back e n q)) h,
        omega (arith, same),
      )
  Step-Numbered s t (breaks _ front back e q) small h =
      let same : (append c false e s.logger).0.seq ≡ s.logger.seq = unfold append in refl in
      (same-Numbered s _ same (λ n. break-uses s front back e n q) h, omega (arith, same))
  Step-Numbered s t (queues _ front back e q) small h =
      let (f, k) = enqueue_rest e s.logger in
      (same-Numbered s _ k (λ n. unfold uses in rw f (omega arith)) h, omega (arith, k))
  Step-Numbered s t (dispatches _) small h =
      let k = dispatch_seq s.logger in
      (
        same-Numbered s _ k (λ n. unfold uses in rw ((dispatch_moves c s.logger).0) (omega arith))
            h,
        omega (arith, k),
      )

  -- However calls of Handle and rounds of dispatchLoop interleave, no number is given twice, to
  -- lines of the file or to entries that are about to be written, and none is above the counter,
  -- which has gone up by one for each call that took a number, if this is so at the start and the
  -- counter does not wrap around at 2 ^ 64.
  pub Reaches-Numbered :
      (s t : State c) (r : Reaches c s t)
      → s.logger.seq + taken s t r < 2 ^ 64
      → Numbered s
      → Numbered t × (t.logger.seq ≡ s.logger.seq + taken s t r)
  Reaches-Numbered s t (stays _) small h = (h, omega arith)
  Reaches-Numbered s u (goes_on _ t _ r x) small h =
      let (g, k) = Reaches-Numbered s t r (omega (arith, small)) h in
      let (f, l) = Step-Numbered t u x (omega (arith, small, k)) g in (f, omega (arith, k, l))
