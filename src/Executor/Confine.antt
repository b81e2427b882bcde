-- ===== src/Executor/Confine.antt =====
-- ResolveWorkDir of internal/executor/executor.go never leaves the configured directory.
use agent_ssh.Base.{
  ◌≡◌, ◌≢◌, refl, sym, subst, ◌∙◌, Bool, false, some, [], ◌∷◌, ◌++◌, Bool-cases, Option-cases, inl,
  inr,
}
use agent_ssh.Base.Path.{clean, join, rel, is_abs, dotdot}
use agent_ssh.Base.Clean.{clean-ne-nil}
use agent_ssh.Base.Within.{Below, Below-refl, leads_out, rel-inside}
use agent_ssh.Base.Result.{ok, ok_inj}
use agent_ssh.Base.Text.{Text, codes, text_eq, trim_space, has_prefix}
use agent_ssh.Executor.WorkDir.{is_outside, target_of, resolve_work_dir}

join-clean : (d t : Text) → d ≢ [] → (b : Text) × (join d t ≡ clean b)
unfolding join
join-clean [] t h = absurd (h refl)
join-clean (c ∷ s) t h = ((c ∷ s) ++ (b'/' ∷ t), refl)

target-clean : (d requested : Text) → d ≢ [] → (b : Text) × (target_of d requested ≡ clean b)
unfolding target_of
target-clean d requested h = elim (Bool-cases (is_abs (clean requested))) [
  | inl e ↦ (requested, rw (target_of, e) refl)
  | inr e ↦ let (b, q) = join-clean d (clean requested) h in (b, rw (target_of, e) q)
]

not_outside : (r : Text) → is_outside (some r) ≡ false → leads_out r ≡ false
unfolding is_outside
not_outside r h = elim (Bool-cases (text_eq r dotdot)) [
  | inl a ↦ let k = rw (is_outside, a) at h in cc
  | inr a ↦ elim (Bool-cases (has_prefix r (codes "../"))) [
    | inl b ↦ let k = rw (is_outside, a, b) at h in cc
    | inr b ↦ rw (a, b) refl
  ]
]

inside-Below :
    (a b : Text) → is_outside (rel (clean a) (clean b)) ≡ false → Below (clean a) (clean b)
unfolding is_outside
inside-Below a b h = elim (Option-cases (rel (clean a) (clean b))) [
  | inl e ↦ let k = rw (is_outside, e) at h in cc
  | inr (r, e) ↦
      let (x, rest, q, d) =
        rel-inside a b r e (not_outside r (subst (λ o. is_outside o ≡ false) e h)) in
      record { root = x; rest = rest; words = q; down = d }
]

-- A directory that ResolveWorkDir returns is the configured one, cleaned, or lies below it: it has
-- the same root and the words of that one, and then words of which none is "..".
pub resolve_work_dir-Below :
    (mkdir_all : Text → Bool) (work_dir requested t : Text)
    → resolve_work_dir mkdir_all work_dir requested ≡ ok t
    → Below (clean work_dir) t
unfolding resolve_work_dir
resolve_work_dir-Below mkdir_all work_dir requested t h =
    let d = clean work_dir in
    elim (Bool-cases (text_eq (trim_space requested) [])) [
      | inl a ↦ subst (λ x. Below d x) (ok_inj (rw (a, resolve_work_dir) at h)) (Below-refl d)
      | inr a ↦ elim (Bool-cases (is_outside (rel d (target_of d requested)))) [
        | inl b ↦ let k = rw (a, b, resolve_work_dir) at h in cc
        | inr b ↦ elim (Bool-cases (mkdir_all (target_of d requested))) [
          | inr e ↦ let k = rw (a, b, e, resolve_work_dir) at h in cc
          | inl e ↦
              let (x, q) = target-clean d requested (clean-ne-nil work_dir) in
              let k : target_of d requested ≡ t = ok_inj (rw (a, b, e, resolve_work_dir) at h) in
              subst (λ y. Below d y) (sym q ∙ k)
                (inside-Below work_dir x (subst (λ y. is_outside (rel d y) ≡ false) q b))
        ]
      ]
    ]
