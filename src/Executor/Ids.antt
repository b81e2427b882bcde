-- ===== src/Executor/Ids.antt =====
-- GenerateTaskID of internal/executor/executor.go, on the date as time.Format lays it out and on
-- the six bytes of rand.Read.
use mathlib.Core.List.{append_cancel_left}
use mathlib.Core.Option.{some-injective}
use agent_ssh.Base.{ℕ, ◌≡◌, sym, ap, ◌∙◌, List, [], ◌++◌, All, ◌∷◌}
use agent_ssh.Base.Hex
use agent_ssh.Base.Hex.{IsByte, decode-encode}
use agent_ssh.Base.Text.{Text, codes}

unfoldable pub generate_task_id : Text → List ℕ → Text
generate_task_id date bytes = codes "task-" ++ (date ++ (b'-' ∷ Hex.encode bytes))

-- On one day two identifiers are the same only if their random bytes are.
pub generate_task_id_inj :
    (date : Text) (bytes other : List ℕ)
    → All IsByte bytes
    → All IsByte other
    → generate_task_id date bytes ≡ generate_task_id date other
    → bytes ≡ other
unfolding generate_task_id
generate_task_id_inj date bytes other p q same =
    let h = append_cancel_left date _ _ (append_cancel_left (codes "task-") _ _ same) in
    let g = append_cancel_left (b'-' ∷ []) _ _ h in
    some-injective bytes other
      (sym (decode-encode bytes p) ∙ ap Hex.decode g ∙ decode-encode other q)
