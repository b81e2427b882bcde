-- ===== src/Mq/Delivery.antt =====
-- What Send of internal/mq/file.go leaves in the spool directory, one call after another.
use agent_ssh.Base.{
  ℕ, ◌<◌, ◌^◌, ◌≡◌, ◌≢◌, refl, sym, ap, subst, ◌∙◌, ◌⊎◌, inl, inr, Bool-cases, Option-cases, none,
  some, List, [], ◌∷◌, ◌++◌, arith, All, length, length-append,
}
use agent_ssh.Base.Files.{
  Files, put, put_same, put_other, write_file, write_file_ok, write_file_other,
}
use agent_ssh.Base.Normal.{IsSlashFree}
use agent_ssh.Base.Result.{Result, ok, err, Result-cases}
use agent_ssh.Base.Text.{Text, codes}
use agent_ssh.Logger.Entry.{Entry}
use agent_ssh.Mq.Spool.{
  SendError, marshal_failed, write_failed, SendIo, Encoding, move, path_of, store_at, send,
}
use agent_ssh.Mq.Names.{path_of-seq, path_of-tmp}

tmp_of : Text → Text
tmp_of path = path ++ codes ".tmp"

tmp_of-ne : (path : Text) → path ≢ tmp_of path
unfolding tmp_of
tmp_of-ne path h = omega (arith, ap length h, length-append path (codes ".tmp"))

-- What a call leaves, by its result.
abbrev pub Sends : Text → Text → Files → Files → Result SendError (Unit {0}) → Type 0
Sends content path files after (ok _) =
    (after path ≡ some (content ++ b'\n' ∷ []))
    × (after (path ++ codes ".tmp") ≡ none)
    × ((p : Text) → p ≢ path → p ≢ path ++ codes ".tmp" → after p ≡ files p)
Sends content path files after (err _) = (p : Text) → p ≢ path ++ codes ".tmp" → after p ≡ files p

move-some :
    (from to t : Text) (files : Files)
    → files from ≡ some t
    → move from to files ≡ put to (some t) (put from none files)
unfolding move
move-some from to t files h = rw (move, h) refl

moved :
    (path x : Text) (files mid : Files)
    → mid ≡ put (tmp_of path) (some x) files
    → (move (tmp_of path) path mid path ≡ some x)
      × (move (tmp_of path) path mid (tmp_of path) ≡ none)
      × ((p : Text) → p ≢ path → p ≢ tmp_of path → move (tmp_of path) path mid p ≡ files p)
moved path x files mid e =
    let tmp = tmp_of path in
    let full = put tmp (some x) files in
    let cleared = put tmp none full in
    let q = move-some tmp path x full (put_same tmp (some x) files) in
    rw (e, q)
      (
        put_same path (some x) cleared,
        put_other path tmp (some x) cleared (λ z. tmp_of-ne path (sym z)) ∙ put_same tmp none full,
        λ p a b.
            put_other path p (some x) cleared a
            ∙ put_other tmp p none full b
            ∙ put_other tmp p (some x) files b,
      )

store_at-Sends :
    (c : Encoding) (io : SendIo) (path content : Text) (files : Files)
    → Sends content path files
        (store_at c io path content files).0
        (store_at c io path content files).1
unfolding store_at tmp_of
store_at-Sends c io path content files =
    let tmp = tmp_of path in
    let x = content ++ b'\n' ∷ [] in
    let w = write_file io.write write_failed tmp x files in
    elim (Result-cases w.1) [
      | inr (y, e) ↦
          rw (store_at, e) (λ p h. write_file_other io.write write_failed tmp x files p h)
      | inl (_, e) ↦ elim (Bool-cases io.rename) [
        | inl r ↦
            rw (store_at, e, r)
              (moved path x files w.0 (write_file_ok io.write write_failed tmp x files e))
        | inr r ↦ elim (Bool-cases io.remove) [
          | inl m ↦
              rw (store_at, e, r, m)
                (λ p h.
                  put_other tmp p none w.0 h
                  ∙ write_file_other io.write write_failed tmp x files p h)
          | inr m ↦
              rw (store_at, e, r, m) (λ p h. write_file_other io.write write_failed tmp x files p h)
        ]
      ]
    ]

Sends-other :
    (content path : Text) (files after : Files) (r : Result SendError (Unit {0})) (p : Text)
    → Sends content path files after r
    → p ≢ path
    → p ≢ path ++ codes ".tmp"
    → after p ≡ files p
Sends-other content path files after (ok _) p h a b = h.2 p a b
Sends-other content path files after (err _) p h a b = h p b

module _ (c : Encoding) where
  open c use {Attrs, stamp, marshal}

  -- Send of the file sender on every outcome of its calls. When it succeeds, the file of the entry
  -- holds the JSON of the entry and a newline, its temporary file is gone, and every other file is
  -- as it was. When it fails, no file changes but at most the temporary one, and none where the
  -- entry has no JSON.
  pub send-Sends :
      (io : SendIo) (dir : Text) (e : Entry Attrs) (files : Files)
      → ((marshal e ≡ none) × (send c io dir e files ≡ (files, err marshal_failed)))
        ⊎ ((t : Text) × (marshal e ≡ some t)
            × Sends t (path_of c dir e) files (send c io dir e files).0 (send c io dir e files).1)
  unfolding send
  send-Sends io dir e files = elim (Option-cases (marshal e)) [
    | inl m ↦ inl (m, rw (send, m) refl)
    | inr (t, m) ↦ inr (t, m, rw (send, m) (store_at-Sends c io (path_of c dir e) t files))
  ]

  pub send_other :
      (io : SendIo) (dir : Text) (e : Entry Attrs) (files : Files) (p : Text)
      → p ≢ path_of c dir e
      → p ≢ path_of c dir e ++ codes ".tmp"
      → (send c io dir e files).0 p ≡ files p
  send_other io dir e files p a b = elim (send-Sends io dir e files) [
    | inl (m, q) ↦ ap (λ r. r.0 p) q
    | inr (t, m, s) ↦
        Sends-other t (path_of c dir e) files (send c io dir e files).0 (send c io dir e files).1 p
          s a b
  ]

  pub record Delivery : Type 0 where
    pub io : SendIo
    pub entry : Entry Attrs

  -- One Send after another, as the mutex of the sender orders them.
  unfoldable pub deliver : Text → List Delivery → Files → Files
  deliver dir [] files = files
  deliver dir (d ∷ ds) files = deliver dir ds (send c d.io dir d.entry files).0

  -- Numbers that differ and fit 64 bits.
  abbrev pub Apart : List Delivery → Type 0
  Apart [] = Unit
  Apart (d ∷ ds) =
      (d.entry.seq < 2 ^ 64) × All (λ (x : Delivery). x.entry.seq ≢ d.entry.seq) ds × Apart ds

  -- Each call that succeeded has its entry in `after`.
  abbrev pub Kept : Text → List Delivery → Files → Files → Type 0
  Kept dir [] files after = Unit
  Kept dir (d ∷ ds) files after =
      ((send c d.io dir d.entry files).1 ≡ ok tt
        → (t : Text) × (marshal d.entry ≡ some t)
          × (after (path_of c dir d.entry) ≡ some (t ++ b'\n' ∷ [])))
      × Kept dir ds (send c d.io dir d.entry files).0 after

  pub sent_there :
      (io : SendIo) (dir : Text) (e : Entry Attrs) (files : Files)
      → (send c io dir e files).1 ≡ ok tt
      → (t : Text) × (marshal e ≡ some t)
        × ((send c io dir e files).0 (path_of c dir e) ≡ some (t ++ b'\n' ∷ []))
  sent_there io dir e files h = elim (send-Sends io dir e files) [
    | inl (m, q) ↦ let k = ap (λ r. r.1) q in cc
    | inr (t, m, s) ↦
        (t, m, (subst (Sends t (path_of c dir e) files (send c io dir e files).0) h s).0)
  ]

  module _ (clear : (t : ℕ) → IsSlashFree (stamp t)) (dir : Text) (named : dir ≢ []) where
    deliver_other :
        (e : Entry Attrs) (ds : List Delivery) (files : Files)
        → e.seq < 2 ^ 64
        → All (λ (x : Delivery). x.entry.seq ≢ e.seq) ds
        → Apart ds
        → deliver dir ds files (path_of c dir e) ≡ files (path_of c dir e)
    unfolding deliver
    deliver_other e [] files b h a = refl
    deliver_other e (d ∷ ds) files b h a =
        deliver_other e ds (send c d.io dir d.entry files).0 b h.1 a.2
        ∙ send_other d.io dir d.entry files (path_of c dir e)
            (λ q. h.0 (sym (path_of-seq c clear dir e d.entry named b a.0 q)))
            (path_of-tmp c clear dir e d.entry named)

    -- No entry that was sent is lost in the spool directory: after any sequence of calls of Send,
    -- of which some fail, the file of each entry whose call succeeded holds the JSON of it. The
    -- numbers of the entries differ and fit 64 bits, the directory has a name, and stamps have no
    -- slash.
    pub deliver-Kept :
        (ds : List Delivery) (files : Files) → Apart ds → Kept dir ds files (deliver dir ds files)
    unfolding deliver
    deliver-Kept [] files a = tt
    deliver-Kept (d ∷ ds) files a = (
      λ h.
          let (t, m, there) = sent_there d.io dir d.entry files h in
          (t, m, deliver_other d.entry ds (send c d.io dir d.entry files).0 a.0 a.1 a.2 ∙ there),
      deliver-Kept ds (send c d.io dir d.entry files).0 a.2,
    )
