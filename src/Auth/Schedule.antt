-- ===== src/Auth/Schedule.antt =====
-- nextRotationDelay of internal/auth/auth.go. Times are nanoseconds; time.Date of the current day,
-- as a function of the hour, is a parameter.
use agent_ssh.Base.{
  ℕ, ◌+◌, ◌*◌, ◌≤◌, ◌<◌, ◌≡◌, ◌⊎◌, inl, inr, true, false, arith, if◌then◌else◌, Bool-cases,
}
use agent_ssh.Base.Int.{ℤ, pos, negsuc, ◌+ℤ◌, ◌-ℤ◌, ◌≤ℤ◌, ltb_ℤ, +ℤ_parts, -ℤ_parts, eq_of_parts}
use agent_ssh.Auth.Model.{TokenManager}

abbrev pub day : ℤ
day = pos 86400000000000

unfoldable pub next_rotation_delay : (ℤ → ℤ) → ℤ → TokenManager → ℤ
next_rotation_delay date now tm =
    let next = date tm.rotation_hour in (if ltb_ℤ now next then next else next +ℤ day) -ℤ now

cancels_out : (n x : ℤ) → n +ℤ (x -ℤ n) ≡ x
cancels_out n x = eq_of_parts _ _ (omega (arith, +ℤ_parts n (x -ℤ n), -ℤ_parts x n))

later_today : (n x : ℤ) → ltb_ℤ n x ≡ true → x ≤ℤ n +ℤ day → (pos 1 ≤ℤ (x -ℤ n)) × ((x -ℤ n) ≤ℤ day)
later_today n x g u = ground (arith, -ℤ_parts x n, +ℤ_parts n day)

tomorrow :
    (n x : ℤ)
    → ltb_ℤ n x ≡ false
    → n +ℤ pos 1 ≤ℤ x +ℤ day
    → (pos 1 ≤ℤ (x +ℤ day -ℤ n)) × ((x +ℤ day -ℤ n) ≤ℤ day)
tomorrow n x g u = ground (arith, -ℤ_parts (x +ℤ day) n, +ℤ_parts x day, +ℤ_parts n (pos 1))

-- The instant of an hour of the day is at most a day after now, and not a day before it.
within_a_day :
    (m n x : ℤ) (k : ℕ)
    → x ≡ m +ℤ pos (k * 3600000000000)
    → m ≤ℤ n
    → n +ℤ pos 1 ≤ℤ m +ℤ day
    → k < 24
    → (x ≤ℤ n +ℤ day) × (n +ℤ pos 1 ≤ℤ x +ℤ day)
within_a_day m n x k e a b l = rw e (
    ground (
      arith,
      +ℤ_parts m (pos (k * 3600000000000)),
      +ℤ_parts n day,
      +ℤ_parts n (pos 1),
      +ℤ_parts m day,
      +ℤ_parts (m +ℤ pos (k * 3600000000000)) day,
    ))

-- On a day without a change of the clocks, with a rotation hour between 0 and 23, the delay is
-- positive and at most a day, and ends at that hour of this day or of the next.
pub next_rotation_delay_bounds :
    (date : ℤ → ℤ) (midnight now : ℤ) (h : ℕ) (tm : TokenManager)
    → date (pos h) ≡ midnight +ℤ pos (h * 3600000000000)
    → midnight ≤ℤ now
    → now +ℤ pos 1 ≤ℤ midnight +ℤ day
    → tm.rotation_hour ≡ pos h
    → h < 24
    → let d = next_rotation_delay date now tm in
      (pos 1 ≤ℤ d) × (d ≤ℤ day) × ((now +ℤ d ≡ date (pos h)) ⊎ (now +ℤ d ≡ date (pos h) +ℤ day))
unfolding next_rotation_delay
next_rotation_delay_bounds date midnight now h tm e a b r l =
    let (u, v) = within_a_day midnight now (date (pos h)) h e a b l in
    elim (Bool-cases (ltb_ℤ now (date (pos h)))) [
      | inl g ↦
          let (x, y) = later_today now (date (pos h)) g u in
          rw (next_rotation_delay, r, g) (x, y, inl (cancels_out now (date (pos h))))
      | inr g ↦
          let (x, y) = tomorrow now (date (pos h)) g v in
          rw (next_rotation_delay, r, g) (x, y, inr (cancels_out now (date (pos h) +ℤ day)))
    ]

long_past :
    (m n x : ℤ) (k : ℕ)
    → x ≡ m -ℤ pos ((k + 1) * 3600000000000)
    → m ≤ℤ n
    → 23 ≤ k
    → (ltb_ℤ n x ≡ false) × ((x +ℤ day -ℤ n) ≤ℤ pos 0)
long_past m n x k e a l = rw e (
    ground (
      arith,
      -ℤ_parts m (pos ((k + 1) * 3600000000000)),
      +ℤ_parts (m -ℤ pos ((k + 1) * 3600000000000)) day,
      -ℤ_parts (m -ℤ pos ((k + 1) * 3600000000000) +ℤ day) n,
    ))

-- With a rotation hour of -24 or less, which Load lets through, the delay is never positive: the timer
-- of rotationLoop fires at once, in every round.
pub next_rotation_delay_expired :
    (date : ℤ → ℤ) (midnight now : ℤ) (h : ℕ) (tm : TokenManager)
    → date (negsuc h) ≡ midnight -ℤ pos ((h + 1) * 3600000000000)
    → midnight ≤ℤ now
    → tm.rotation_hour ≡ negsuc h
    → 23 ≤ h
    → next_rotation_delay date now tm ≤ℤ pos 0
unfolding next_rotation_delay
next_rotation_delay_expired date midnight now h tm e a r l =
    let (g, u) = long_past midnight now (date (negsuc h)) h e a l in
    rw (next_rotation_delay, r, g) u
