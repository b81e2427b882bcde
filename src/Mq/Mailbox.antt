-- ===== src/Mq/Mailbox.antt =====
-- The spool directory of internal/mq/file.go as a mailbox, which takes the number of an entry to a
-- message.
use agent_ssh.Base.{
  ℕ, ◌<◌, ◌^◌, ◌≡◌, ◌≢◌, refl, sym, ap, subst, ◌∙◌, ◌⊎◌, inl, inr, Bool-cases, Bool, true, false,
  Option, none, some, List, [], ◌∷◌, ◌++◌, ◌==◌, ==_iff, if◌then◌else◌, All,
}
use agent_ssh.Base.Files.{Files, Write, complete, refused, cut, write_file}
use agent_ssh.Base.Normal.{IsSlashFree}
use agent_ssh.Base.Result.{ok, err}
use agent_ssh.Base.Text.{Text}
use agent_ssh.Logger.Entry.{Entry}
use agent_ssh.Mq.Spool.{
  SendError, write_failed, rename_failed, SendIo, Encoding, path_of, store_at, send,
}
use agent_ssh.Mq.Names.{path_of-seq, path_of-tmp}
use agent_ssh.Mq.Delivery.{Delivery, deliver, Sends, send-Sends, send_other}

abbrev pub Mailbox : Type 0
Mailbox = ℕ → Option Text

-- A call goes through when its file is written as a whole and renamed.
unfoldable pub goes_through : SendIo → Bool
goes_through io = elim io.write [ complete ↦ io.rename | _ ↦ false ]

module _ (c : Encoding) where
  open c use {Attrs, stamp, marshal}

  unfoldable pub message : SendIo → Entry Attrs → Option Text
  unfolding goes_through
  message io e = elim (marshal e) [
    | none ↦ none
    | some t ↦ if goes_through io then some (t ++ b'\n' ∷ []) else none
  ]

  -- A call that goes through replaces the message of its number, and another changes nothing.
  unfoldable pub post : Delivery c → Mailbox → Mailbox
  unfolding message
  post d box n =
      if n == d.entry.seq
      then (elim (message d.io d.entry) [ none ↦ box n | some t ↦ some t ])
      else box n

  unfoldable pub posts : List (Delivery c) → Mailbox → Mailbox
  unfolding post
  posts [] box = box
  posts (d ∷ ds) box = posts ds (post d box)

  Write-cases : (w : Write) → (w ≡ complete) ⊎ ((w ≡ refused) ⊎ ((t : Text) × (w ≡ cut t)))
  Write-cases complete = inl refl
  Write-cases refused = inr (inl refl)
  Write-cases (cut t) = inr (inr (t, refl))

  through-ok :
      (io : SendIo) (path t : Text) (files : Files)
      → goes_through io ≡ true
      → (store_at c io path t files).1 ≡ ok tt
  unfolding goes_through store_at write_file
  through-ok io path t files h = elim (Write-cases io.write) [
    | inl w ↦ let r = rw (goes_through, w) at h in rw (store_at, w, r) refl
    | inr (inl w) ↦ let r = rw (goes_through, w) at h in cc
    | inr (inr (x, w)) ↦ let r = rw (goes_through, w) at h in cc
  ]

  stuck-err :
      (io : SendIo) (path t : Text) (files : Files)
      → goes_through io ≡ false
      → (x : SendError) × ((store_at c io path t files).1 ≡ err x)
  unfolding goes_through store_at write_file
  stuck-err io path t files h = elim (Write-cases io.write) [
    | inl w ↦ let r = rw (goes_through, w) at h in (rename_failed, rw (store_at, w, r) refl)
    | inr (inl w) ↦ (write_failed, rw (store_at, w) refl)
    | inr (inr (x, w)) ↦ (write_failed, rw (store_at, w) refl)
  ]

  send_store :
      (io : SendIo) (dir t : Text) (e : Entry Attrs) (files : Files)
      → marshal e ≡ some t
      → send c io dir e files ≡ store_at c io (path_of c dir e) t files
  unfolding send
  send_store io dir t e files m = rw (send, m) refl

  post_same :
      (d : Delivery c) (box : Mailbox)
      → post d box d.entry.seq
        ≡ (elim (message d.io d.entry) [ none ↦ box d.entry.seq | some t ↦ some t ])
  unfolding post
  post_same d box = rw (post, (==_iff d.entry.seq d.entry.seq).1 refl) refl

  post_other : (d : Delivery c) (box : Mailbox) (n : ℕ) → d.entry.seq ≢ n → post d box n ≡ box n
  unfolding post
  post_other d box n h = elim (Bool-cases (n == d.entry.seq)) [
    | inl e ↦ absurd (h (sym ((==_iff n d.entry.seq).0 e)))
    | inr e ↦ rw (post, e) refl
  ]

  -- What a call leaves under its number, by its message.
  abbrev kept_or : Option Text → Option Text → Option Text
  kept_or old none = old
  kept_or old (some t) = some t

  post_message :
      (d : Delivery c) (box : Mailbox) (m : Option Text)
      → message d.io d.entry ≡ m
      → post d box d.entry.seq ≡ kept_or (box d.entry.seq) m
  post_message d box none h = post_same d box ∙ rw h refl
  post_message d box (some t) h = post_same d box ∙ rw h refl

  message_none : (io : SendIo) (e : Entry Attrs) → marshal e ≡ none → message io e ≡ none
  unfolding message
  message_none io e m = rw (message, m) refl

  message_stuck :
      (io : SendIo) (e : Entry Attrs) (t : Text)
      → marshal e ≡ some t
      → goes_through io ≡ false
      → message io e ≡ none
  unfolding message
  message_stuck io e t m g = rw (message, m, g) refl

  message_through :
      (io : SendIo) (e : Entry Attrs) (t : Text)
      → marshal e ≡ some t
      → goes_through io ≡ true
      → message io e ≡ some (t ++ b'\n' ∷ [])
  unfolding message
  message_through io e t m g = rw (message, m, g) refl

  module _ (clear : (t : ℕ) → IsSlashFree (stamp t)) (dir : Text) (named : dir ≢ []) where
    send-post :
        (d : Delivery c) (files : Files) (box : Mailbox)
        → files (path_of c dir d.entry) ≡ box d.entry.seq
        → (send c d.io dir d.entry files).0 (path_of c dir d.entry) ≡ post d box d.entry.seq
    send-post d files box h =
        let path = path_of c dir d.entry in
        elim (send-Sends c d.io dir d.entry files) [
          | inl (m, q) ↦
              ap (λ r. r.0 path) q ∙ h ∙ sym (post_message d box none (message_none d.io d.entry m))
          | inr (t, m, s) ↦ elim (Bool-cases (goes_through d.io)) [
            | inl g ↦
                let r =
                  ap (λ x. x.1) (send_store d.io dir t d.entry files m)
                  ∙ through-ok d.io path t files g in
                (subst (Sends t path files (send c d.io dir d.entry files).0) r s).0
                ∙ sym (
                    post_message d box (some (t ++ b'\n' ∷ []))
                      (message_through d.io d.entry t m g))
            | inr g ↦
                let (x, r) = stuck-err d.io path t files g in
                let k = ap (λ y. y.1) (send_store d.io dir t d.entry files m) ∙ r in
                subst (Sends t path files (send c d.io dir d.entry files).0) k s path
                  (path_of-tmp c clear dir d.entry d.entry named)
                ∙ h
                ∙ sym (post_message d box none (message_stuck d.io d.entry t m g))
          ]
        ]

    send-post_other :
        (d : Delivery c) (e : Entry Attrs) (files : Files) (box : Mailbox)
        → e.seq < 2 ^ 64
        → d.entry.seq < 2 ^ 64
        → d.entry.seq ≢ e.seq
        → files (path_of c dir e) ≡ box e.seq
        → (send c d.io dir d.entry files).0 (path_of c dir e) ≡ post d box e.seq
    send-post_other d e files box a b ne h =
        send_other c d.io dir d.entry files (path_of c dir e)
          (λ q. ne (sym (path_of-seq c clear dir e d.entry named a b q)))
          (path_of-tmp c clear dir e d.entry named)
        ∙ h
        ∙ sym (post_other d box e.seq ne)

    -- Calls of Send on the spool directory refine posts to a mailbox: over any calls, of which some
    -- fail and some send an entry again, the file of an entry holds what the mailbox holds under
    -- its number, if it does so at the start. Numbers fit 64 bits and belong to one entry each, as
    -- far as the number of this entry goes; the directory has a name, and stamps have no slash.
    pub deliver-posts :
        (e : Entry Attrs) (ds : List (Delivery c)) (files : Files) (box : Mailbox)
        → e.seq < 2 ^ 64
        → All
            (λ (d : Delivery c). (d.entry.seq < 2 ^ 64) × ((d.entry ≡ e) ⊎ (d.entry.seq ≢ e.seq)))
            ds
        → files (path_of c dir e) ≡ box e.seq
        → deliver c dir ds files (path_of c dir e) ≡ posts ds box e.seq
    unfolding deliver posts
    deliver-posts e [] files box a g h = h
    deliver-posts e (d ∷ ds) files box a (g, gs) h =
        deliver-posts e ds (send c d.io dir d.entry files).0 (post d box) a gs (elim g.1 [
          | inl same ↦
              subst
                (λ (x : Entry Attrs).
                  files (path_of c dir x) ≡ box x.seq
                  → (send c d.io dir d.entry files).0 (path_of c dir x) ≡ post d box x.seq)
                same (send-post d files box) h
          | inr ne ↦ send-post_other d e files box a g.0 ne h
        ])
