-- ===== src/Mq/Names.antt =====
-- The names of the files that Send of internal/mq/file.go writes.
use agent_ssh.Base.{
  ℕ, ◌<◌, ◌^◌, ◌≡◌, ◌≢◌, refl, sym, ap, subst, ◌∙◌, List, [], ◌∷◌, ◌++◌, arith, All, All-append,
  length, length-append,
}
use agent_ssh.Base.Child.{IsName, join_inj, join-more}
use agent_ssh.Base.Decimal.{
  ten_to, padded, digits_value, digits_value-++, digits_value-padded, length-padded, padded-digits,
}
use agent_ssh.Base.Normal.{IsSlashFree}
use agent_ssh.Base.Text.{Text, codes}
use agent_ssh.Logger.Entry.{Entry}
use agent_ssh.Mq.Spool.{Encoding, file_name, path_of}

tail {ℓ} : {A : Type ℓ} → List A → List A
tail [] = []
tail (x ∷ xs) = xs

-- Ends of one length of the same text are the same.
suffix_eq : (xs ys s t : Text) → xs ++ s ≡ ys ++ t → length s ≡ length t → s ≡ t
unfolding tail
suffix_eq [] [] s t h l = h
suffix_eq [] (y ∷ ys) s t h l = absurd (omega (arith, ap length h, length-append ys t, l))
suffix_eq (x ∷ xs) [] s t h l = absurd (omega (arith, ap length h, length-append xs s, l))
suffix_eq (x ∷ xs) (y ∷ ys) s t h l = suffix_eq xs ys s t (ap tail h) l

last_byte : ℕ → Text → ℕ
last_byte d [] = d
last_byte d (c ∷ s) = last_byte c s

last_byte-++ : (d c : ℕ) (s t : Text) → last_byte d (s ++ c ∷ t) ≡ last_byte c t
unfolding last_byte
last_byte-++ d c [] t = refl
last_byte-++ d c (x ∷ s) t = last_byte-++ x c s t

numbered_value :
    (n : ℕ)
    → n < 2 ^ 64
    → digits_value 0 (padded 20 n ++ codes ".json") ≡ digits_value n (codes ".json")
unfolding ten_to
numbered_value n h =
    digits_value-++ 0 (padded 20 n) (codes ".json")
    ∙ ap (λ m. digits_value m (codes ".json")) (digits_value-padded 20 n (omega arith))

value_inj : (m n : ℕ) → digits_value m (codes ".json") ≡ digits_value n (codes ".json") → m ≡ n
unfolding digits_value
value_inj m n h = omega arith

-- What follows the stamp.
rest_of : ℕ → Text
rest_of n = b'_' ∷ padded 20 n ++ codes ".json"

length-rest_of : (n : ℕ) → length (rest_of n) ≡ 26
unfolding rest_of
length-rest_of n = omega (arith, length-append (padded 20 n) (codes ".json"), length-padded 20 n)

digit_free : (s : Text) → All (λ c. (47 < c) × (c < 58)) s → IsSlashFree s
digit_free [] h = tt
digit_free (c ∷ s) h = (λ q. omega (arith, h.0), digit_free s h.1)

json_free : IsSlashFree (codes ".json")
json_free = (
  λ q. omega arith,
  (λ q. omega arith, (λ q. omega arith, (λ q. omega arith, (λ q. omega arith, tt)))),
)

tmp_free : IsSlashFree (codes ".tmp")
tmp_free = (λ q. omega arith, (λ q. omega arith, (λ q. omega arith, (λ q. omega arith, tt))))

rest_of-free : (n : ℕ) → IsSlashFree (rest_of n)
unfolding rest_of
rest_of-free n = (
  λ q. omega arith,
  All-append (λ c. c ≢ b'/') (padded 20 n) (codes ".json")
      (digit_free (padded 20 n) (padded-digits 20 n)) json_free,
)

rest_of-inj : (m n : ℕ) → m < 2 ^ 64 → n < 2 ^ 64 → rest_of m ≡ rest_of n → m ≡ n
unfolding rest_of tail
rest_of-inj m n a b h =
    value_inj m n
      (sym (numbered_value m a) ∙ ap (λ s. digits_value 0 (tail s)) h ∙ numbered_value n b)

long-IsName : (s : Text) → IsSlashFree s → 2 < length s → IsName s
long-IsName s free h = record {
  no_slash = free;
  ne_nil = λ q. omega (arith, ap length q);
  ne_dot = λ q. omega (arith, ap length q);
  ne_dotdot = λ q. omega (arith, ap length q);
}

module _ (c : Encoding) (clear : (t : ℕ) → IsSlashFree (c.stamp t)) where
  file_name_lem : (e : Entry c.Attrs) → file_name c e ≡ c.stamp e.timestamp ++ rest_of e.seq
  unfolding file_name rest_of
  file_name_lem e = refl

  file_name-free : (e : Entry c.Attrs) → IsSlashFree (file_name c e)
  file_name-free e = subst IsSlashFree (sym (file_name_lem e)) (
      All-append (λ x. x ≢ b'/') (c.stamp e.timestamp) (rest_of e.seq) (clear e.timestamp)
        (rest_of-free e.seq))

  length-file_name : (e : Entry c.Attrs) → 2 < length (file_name c e)
  length-file_name e = omega (
    arith,
    ap length (file_name_lem e),
    length-append (c.stamp e.timestamp) (rest_of e.seq),
    length-rest_of e.seq,
  )

  pub file_name-IsName : (e : Entry c.Attrs) → IsName (file_name c e)
  file_name-IsName e = long-IsName (file_name c e) (file_name-free e) (length-file_name e)

  more-IsName : (e : Entry c.Attrs) (t : Text) → IsSlashFree t → IsName (file_name c e ++ t)
  more-IsName e t free =
      long-IsName (file_name c e ++ t)
        (All-append (λ x. x ≢ b'/') (file_name c e) t (file_name-free e) free)
        (omega (arith, length-append (file_name c e) t, length-file_name e))

  -- Entries of different numbers have different names.
  file_name-seq :
      (e f : Entry c.Attrs)
      → e.seq < 2 ^ 64
      → f.seq < 2 ^ 64
      → file_name c e ≡ file_name c f
      → e.seq ≡ f.seq
  file_name-seq e f a b h = rest_of-inj e.seq f.seq a b (
      suffix_eq (c.stamp e.timestamp) (c.stamp f.timestamp) (rest_of e.seq) (rest_of f.seq)
        (sym (file_name_lem e) ∙ h ∙ file_name_lem f)
        (length-rest_of e.seq ∙ sym (length-rest_of f.seq)))

  -- Entries of different numbers have different files in a spool directory.
  pub path_of-seq :
      (dir : Text) (e f : Entry c.Attrs)
      → dir ≢ []
      → e.seq < 2 ^ 64
      → f.seq < 2 ^ 64
      → path_of c dir e ≡ path_of c dir f
      → e.seq ≡ f.seq
  unfolding path_of
  path_of-seq dir e f h a b q =
      file_name-seq e f a b
        (join_inj dir (file_name c e) (file_name c f) h (file_name-IsName e) (file_name-IsName f) q)

  name-last : (e : Entry c.Attrs) → last_byte 0 (file_name c e) ≡ b'n'
  unfolding file_name last_byte
  name-last e =
      last_byte-++ 0 b'_' (c.stamp e.timestamp) (padded 20 e.seq ++ codes ".json")
      ∙ last_byte-++ b'_' b'.' (padded 20 e.seq) (codes "json")

  -- No file of an entry is the temporary file of another.
  pub path_of-tmp :
      (dir : Text) (e f : Entry c.Attrs)
      → dir ≢ []
      → path_of c dir e ≢ path_of c dir f ++ codes ".tmp"
  unfolding path_of last_byte
  path_of-tmp dir e f h q =
      let m = more-IsName f (codes ".tmp") tmp_free in
      let k = q ∙ join-more dir (file_name c f) (codes ".tmp") h (file_name-IsName f) m in
      let n =
        join_inj dir (file_name c e) (file_name c f ++ codes ".tmp") h (file_name-IsName e) m k in
      omega
        (arith, name-last e, ap (last_byte 0) n, last_byte-++ 0 b'.' (file_name c f) (codes "tmp"))
