-- ===== src/Logger/Replica.antt =====
-- The queue of internal/logger/logger.go against the log file: what is replicated, and what Close
-- sends.
use agent_ssh.Base.{
  ℕ, ◌+◌, ◌-◌, ◌≤◌, ◌≡◌, refl, sym, ap, subst, ◌∙◌, ◌⊎◌, inl, inr, Bool, false, Option, some, List,
  [], ◌∷◌, ◌++◌, map, arith, take, drop, length, length-append, ltb, Bool-cases, Option-cases,
}
use mathlib.Core.List.{Sublistᴰ, append_assoc, map-append}
use mathlib.Core.List.Sublistᴰ.{slnil, cons, cons-cons}
use agent_ssh.Base.Result.{Result-cases}
use agent_ssh.Base.Text.{Text}
use agent_ssh.Logger.Entry.{Entry, Crypto, decoded}
use agent_ssh.Logger.Handler.{
  Record, queue_size, Logger, next_body, sign_body, seal, append, enqueue, handle, dispatch,
}
use agent_ssh.Logger.Steps.{sealed_entry, written, handle_works}
use agent_ssh.Logger.Lifecycle.{Event, handled, dispatched, step, run}

last-keep {ℓ} :
    {A : Type ℓ} (x : A) (xs ys : List A) → Sublistᴰ xs ys → Sublistᴰ (xs ++ x ∷ []) (ys ++ x ∷ [])
last-keep x [] [] slnil = cons-cons refl slnil
last-keep x (z ∷ xs) [] s = elim s [ ]
last-keep x xs (y ∷ ys) (cons s) = cons (last-keep x xs ys s)
last-keep x (z ∷ xs) (y ∷ ys) (cons-cons q s) = cons-cons q (last-keep x xs ys s)

last-skip {ℓ} : {A : Type ℓ} (x : A) (xs ys : List A) → Sublistᴰ xs ys → Sublistᴰ xs (ys ++ x ∷ [])
last-skip x [] [] slnil = cons slnil
last-skip x (z ∷ xs) [] s = elim s [ ]
last-skip x xs (y ∷ ys) (cons s) = cons (last-skip x xs ys s)
last-skip x (z ∷ xs) (y ∷ ys) (cons-cons q s) = cons-cons q (last-skip x xs ys s)

Queue-cases {ℓ} : {A : Type ℓ} (q : List A) → (q ≡ []) ⊎ ((x : A) × (r : List A) × (q ≡ x ∷ r))
Queue-cases [] = inl refl
Queue-cases (x ∷ r) = inr (x, r, refl)

module _ (c : Crypto) where
  open c use {Attrs, marshal, sign}

  -- Everything that was sent or waits stands in the file, in the order of the file, and the queue keeps
  -- to its size.
  pub record Replicates (t : Logger c) : Type 0 where
    pub ordered : Sublistᴰ (map (λ e. some (decoded c e)) (t.sent ++ t.queue)) t.file
    pub bounded : length t.queue ≤ queue_size

  -- What a call of Handle does to the file, the queue and what was sent.
  data Effect (t after : Logger c) : Type 0 where
    nothing : after.file ≡ t.file → after.queue ≡ t.queue → after.sent ≡ t.sent → Effect t after
    dropped :
        (e : Entry Attrs)
        → after.file ≡ t.file ++ some (decoded c e) ∷ []
        → after.queue ≡ t.queue
        → after.sent ≡ t.sent
        → Effect t after
    queued :
        (e : Entry Attrs)
        → after.file ≡ t.file ++ some (decoded c e) ∷ []
        → length t.queue + 1 ≤ queue_size
        → after.queue ≡ t.queue ++ e ∷ []
        → after.sent ≡ t.sent
        → Effect t after

  enqueue-Effect : (e : Entry Attrs) (t : Logger c) → Effect t (enqueue c e (written c e t))
  unfolding enqueue written
  enqueue-Effect e t = elim (Bool-cases (ltb (length t.queue) queue_size)) [
    | inl f ↦ queued e (rw f refl) (ground arith) (rw f refl) (rw f refl)
    | inr f ↦ dropped e (rw f refl) (rw f refl) (rw f refl)
  ]

  pub seal_rest :
      (r : Record Attrs) (t : Logger c)
      → ((seal c r t).0.file ≡ t.file)
        × ((seal c r t).0.queue ≡ t.queue)
        × ((seal c r t).0.sent ≡ t.sent)
  unfolding seal sign_body next_body
  seal_rest r t = elim (Result-cases (sign_body c (next_body c r t) (marshal (next_body c r t)))) [
    | inl (e, f) ↦ rw (seal, f) (refl, refl, refl)
    | inr (x, f) ↦ rw (seal, f) (refl, refl, refl)
  ]

  unwritten :
      (r : Record Attrs) (t : Logger c) (d s : Text)
      → marshal (next_body c r t) ≡ some d
      → sign d ≡ some s
      → Effect t (handle c false r t).0
  unfolding handle seal sign_body append
  unwritten r t d s f g =
      let (x, y, z) = seal_rest r t in
      nothing (rw (handle, seal, f, sign_body, g) x) (rw (handle, seal, f, sign_body, g) y)
        (rw (handle, seal, f, sign_body, g) z)

  handle-Effect : (w : Bool) (r : Record Attrs) (t : Logger c) → Effect t (handle c w r t).0
  unfolding handle seal sign_body
  handle-Effect w r t = elim (Option-cases (marshal (next_body c r t))) [
    | inl f ↦
        let (x, y, z) = seal_rest r t in
        nothing (rw (handle, seal, f) x) (rw (handle, seal, f) y) (rw (handle, seal, f) z)
    | inr (d, f) ↦ elim (Option-cases (sign d)) [
      | inl g ↦
          let (x, y, z) = seal_rest r t in
          nothing (rw (handle, seal, f, sign_body, g) x) (rw (handle, seal, f, sign_body, g) y)
            (rw (handle, seal, f, sign_body, g) z)
      | inr (s, g) ↦ elim (Bool-cases w) [
        | inl q ↦ rw q (rw (handle_works c r t d s f g) (enqueue-Effect (sealed_entry c r t s) t))
        | inr q ↦ rw q (unwritten r t d s f g)
      ]
    ]
  ]

  -- The entries as lines.
  abbrev lines : List (Entry Attrs) → List (Option (Entry Attrs))
  lines es = map (λ e. some (decoded c e)) es

  Effect-Replicates : (t after : Logger c) → Effect t after → Replicates t → Replicates after
  Effect-Replicates t after (nothing f q s) h = record {
    ordered = rw (f, q, s) h.ordered;
    bounded = rw q h.bounded;
  }
  Effect-Replicates t after (dropped e f q s) h = record {
    ordered =
        rw (f, q, s) (last-skip (some (decoded c e)) (lines (t.sent ++ t.queue)) t.file h.ordered);
    bounded = rw q h.bounded;
  }
  Effect-Replicates t after (queued e f b q s) h =
      let shape : lines (t.sent ++ t.queue) ++ some (decoded c e) ∷ []
          ≡ lines (t.sent ++ (t.queue ++ e ∷ [])) =
        sym (map-append (λ x. some (decoded c x)) (t.sent ++ t.queue) (e ∷ []))
        ∙ ap lines (append_assoc t.sent t.queue (e ∷ [])) in
      record {
        ordered =
            rw (f, q, s)
              (subst (λ l. Sublistᴰ l (t.file ++ some (decoded c e) ∷ [])) shape
                (last-keep (some (decoded c e)) (lines (t.sent ++ t.queue)) t.file h.ordered));
        bounded = omega (arith, ap length q, length-append t.queue (e ∷ []), b);
      }

  -- A round of the loop: nothing is lost between the queue and what was sent.
  pub dispatch_moves :
      (t : Logger c)
      → ((dispatch c t).file ≡ t.file)
        × ((dispatch c t).sent ++ (dispatch c t).queue ≡ t.sent ++ t.queue)
        × (length (dispatch c t).queue ≡ length t.queue - 1)
  unfolding dispatch
  dispatch_moves t = elim (Queue-cases t.queue) [
    | inl q ↦ rw (dispatch, q) (refl, ap (λ l. t.sent ++ l) q, omega (arith, ap length q))
    | inr (e, rest, q) ↦ rw (dispatch, q) (refl, append_assoc t.sent (e ∷ []) rest, omega arith)
  ]

  dispatch-Replicates : (t : Logger c) → Replicates t → Replicates (dispatch c t)
  dispatch-Replicates t h =
      let (f, q, a) = dispatch_moves t in
      record {
        ordered =
            subst (λ l. Sublistᴰ l (dispatch c t).file) (sym (ap lines q))
              (subst (λ l. Sublistᴰ (lines (t.sent ++ t.queue)) l) (sym f) h.ordered);
        bounded = omega (arith, a, h.bounded);
      }

  -- Whatever calls of Handle and rounds of dispatchLoop follow each other, with files that take the
  -- lines or not and records that cannot be signed: what was sent and what waits is a part of the
  -- lines of the log file, in their order, and no more than 4096 entries wait, if this is so at the
  -- start.
  pub run-Replicates : (es : List (Event c)) (t : Logger c) → Replicates t → Replicates (run c es t)
  unfolding run step
  run-Replicates [] t h = h
  run-Replicates (handled w r ∷ es) t h =
      run-Replicates es (handle c w r t).0
        (Effect-Replicates t (handle c w r t).0 (handle-Effect w r t) h)
  run-Replicates (dispatched ∷ es) t h = run-Replicates es (dispatch c t) (dispatch-Replicates t h)

  -- What rounds of handing over leave and hand over.
  record Drains (live : Bool) (n : ℕ) (t after : Logger c) (sends : List (Bool × Entry Attrs))
      : Type 0 where
    left : after.queue ≡ drop n t.queue
    moved : after.sent ≡ t.sent ++ take n t.queue
    kept : after.file ≡ t.file
    handed : sends ≡ map (λ e. (live, e)) (take n t.queue)
