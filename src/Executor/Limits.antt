-- ===== src/Executor/Limits.antt =====
-- The limits that Execute of internal/executor/executor.go keeps, and how it reports them.
use agent_ssh.Base.{
  ℕ, zero, suc, ◌+◌, ◌*◌, ◌≤◌, ◌≡◌, refl, Bool, true, false, ◌||◌, Option, none, some, [], ◌∷◌,
  arith, leb, length, length-append, take,
}
use agent_ssh.Base.Int.{pos, mul_pos, wrap64-pos}
use agent_ssh.Base.Text.{Text}
use agent_ssh.Config.Types.{ExecutorConfig}
use agent_ssh.Config.Load.{max_output_size}
use agent_ssh.Executor.Types.{ExecResult}
use agent_ssh.Executor.Run.{
  Process, WaitError, seconds, effective_timeout, read_limited, truncated_mark, timeout_mark,
  mark_truncated, mark_wait, collect,
}

pub seconds_exact : (n : ℕ) → n ≤ 9223372036 → seconds (pos n) ≡ pos (n * 1000000000)
unfolding seconds
seconds_exact n h = rw mul_pos (wrap64-pos (n * 1000000000) (omega arith))

-- A request below the maximum gets what it asks for.
pub effective_timeout_exact :
    (cfg : ExecutorConfig) (m t : ℕ)
    → cfg.max_timeout ≡ pos m
    → m ≤ 9223372036
    → suc t ≤ m * 1000000000
    → effective_timeout cfg (pos (suc t)) ≡ pos (suc t)
unfolding effective_timeout
effective_timeout_exact cfg m t f hm h = rw (f, seconds_exact m hm) (ground arith)

length-take-le : (n : ℕ) (s : Text) → length (take n s) ≤ n
length-take-le zero s = omega arith
length-take-le (suc n) [] = omega arith
length-take-le (suc n) (c ∷ s) = omega (arith, length-take-le n s)

mark_truncated-stdout : (b : Bool) (r : ExecResult) → (mark_truncated b r).stdout ≡ r.stdout
unfolding mark_truncated
mark_truncated-stdout b r = ground arith

mark_truncated-flag :
    (b : Bool) (r : ExecResult) → (mark_truncated b r).truncated ≡ (b || r.truncated)
unfolding mark_truncated
mark_truncated-flag true r = refl
mark_truncated-flag false r = refl

mark_truncated-stderr :
    (b : Bool) (r : ExecResult) → length (mark_truncated b r).stderr ≤ length r.stderr + 34
unfolding mark_truncated
mark_truncated-stderr true r = omega (arith, length-append r.stderr truncated_mark)
mark_truncated-stderr false r = omega arith

mark_wait-stdout :
    (w : Option WaitError) (b : Bool) (r : ExecResult) → (mark_wait w b r).stdout ≡ r.stdout
unfolding mark_wait
mark_wait-stdout w b r = ground arith

mark_wait-flag :
    (w : Option WaitError) (b : Bool) (r : ExecResult) → (mark_wait w b r).truncated ≡ r.truncated
unfolding mark_wait
mark_wait-flag w b r = ground arith

mark_wait-stderr :
    (w : Option WaitError) (b : Bool) (r : ExecResult)
    → length (mark_wait w b r).stderr ≤ length r.stderr + 9
unfolding mark_wait
mark_wait-stderr none b r = omega arith
mark_wait-stderr (some e) true r = omega (arith, length-append r.stderr timeout_mark)
mark_wait-stderr (some e) false r = omega arith

marks-stderr :
    (w : Option WaitError) (b x y : Bool) (r : ExecResult)
    → length (mark_wait w b (mark_truncated x (mark_truncated y r))).stderr ≤ length r.stderr + 77
marks-stderr w b x y r = omega (
  arith,
  mark_wait-stderr w b (mark_truncated x (mark_truncated y r)),
  mark_truncated-stderr x (mark_truncated y r),
  mark_truncated-stderr y r,
)

read_limited-content : (s : Text) (limit : ℕ) → length (read_limited s (pos limit)).content ≤ limit
unfolding read_limited
read_limited-content s limit = length-take-le limit s

read_limited-truncated :
    (s : Text) (limit : ℕ) → (read_limited s (pos limit)).truncated ≡ leb limit (length s)
unfolding read_limited
read_limited-truncated s limit = ground arith

or-false : (a b : Bool) → (a || (b || false)) ≡ (a || b)
or-false a b = ground arith

module _ (cfg : ExecutorConfig) (p : Process) (limit : ℕ)
    (e : max_output_size cfg ≡ pos limit) where
  -- The result holds at most the configured number of bytes of each stream, plus the marks; and it is
  -- flagged truncated exactly when one of the streams has reached the limit.
  pub collect_bounds :
      (length (collect cfg p).stdout ≤ limit)
      × (length (collect cfg p).stderr ≤ limit + 77)
      × ((collect cfg p).truncated ≡ (leb limit (length p.stderr) || leb limit (length p.stdout)))
  unfolding collect
  collect_bounds =
      let plain : ExecResult = record {
        exit_code = pos 0;
        stdout = (read_limited p.stdout (pos limit)).content;
        stderr = (read_limited p.stderr (pos limit)).content;
        duration = p.milliseconds;
        truncated = false;
      } in
      (
        rw (e, mark_wait-stdout, mark_truncated-stdout, mark_truncated-stdout)
            (read_limited-content p.stdout limit),
        rw e (
            omega (
              arith,
              marks-stderr p.wait_error p.deadline_exceeded
                  (read_limited p.stderr (pos limit)).truncated
                  (read_limited p.stdout (pos limit)).truncated plain,
              read_limited-content p.stderr limit,
            )),
        rw (e, mark_wait-flag, mark_truncated-flag, mark_truncated-flag)
            (rw (read_limited-truncated p.stderr limit, read_limited-truncated p.stdout limit)
              (or-false _ _)),
      )
