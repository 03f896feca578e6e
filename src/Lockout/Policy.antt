-- ===== src/Lockout/Policy.antt =====
-- What the lockout of lockout.rs enforces on a sequence of wrong passwords.
use foldervault.Base.{
  ℕ, ◌+◌, ◌-◌, ◌*◌, ◌^◌, ◌≤◌, ◌<◌, ◌≡◌, ◌≢◌, ◌⊎◌, inl, inr, List, [], ◌∷◌, arith, ltb, leb, ◌==◌,
  if◌then◌else◌, All,
}
use foldervault.Vault.{VaultError, wrong_password, locked_out, ok, err}
use foldervault.Lockout.{LockoutState, max_attempts, lockout_secs, check, record_failure}

-- One wrong password as the callers handle it: `check` first, and `record_failure` if it passes.
unfoldable pub wrong_guess : LockoutState → ℕ → LockoutState
wrong_guess s now_unix = elim (check s now_unix) [
  | ok u ↦ (record_failure s now_unix).0
  | err e ↦ s
]

-- Whether that password is compared at all.
unfoldable pub is_evaluated : LockoutState → ℕ → ℕ
is_evaluated s now_unix = elim (check s now_unix) [ ok u ↦ 1 | err e ↦ 0 ]

-- How many of the wrong passwords, typed at the given times, are compared.
unfoldable pub evaluated : LockoutState → List ℕ → ℕ
evaluated s [] = 0
evaluated s (t ∷ ts) = is_evaluated s t + evaluated (wrong_guess s t) ts

pub wrong_guess-passed :
    (s : LockoutState) (now : ℕ)
    → check s now ≡ ok tt
    → wrong_guess s now ≡ (record_failure s now).0
unfolding wrong_guess
wrong_guess-passed s now c = rw (wrong_guess, c)

pub wrong_guess-refused :
    (s : LockoutState) (now : ℕ) {e : VaultError} → check s now ≡ err e → wrong_guess s now ≡ s
unfolding wrong_guess
wrong_guess-refused s now c = rw (wrong_guess, c)

-- The guesses that a state still allows before `end`, a day after the window began.
abbrev budget : ℕ → LockoutState → ℕ
budget end s =
    if s.locked_until == 0
    then (if ltb s.fail_count 2 then 3 - s.fail_count else 1)
    else (if leb end s.locked_until then 0 else 3)

-- Outside of a lockout the count can grow without a wrap-around.
abbrev pub IsCounting : LockoutState → Type 0
IsCounting s = (s.locked_until ≢ 0) ⊎ (s.fail_count + 1 < 2 ^ 32)

budget_step :
    (start t : ℕ) (s : LockoutState)
    → IsCounting s
    → start ≤ t
    → t < start + lockout_secs
    → start + 2 * lockout_secs < 2 ^ 64
    → is_evaluated s t + budget (start + lockout_secs) (wrong_guess s t)
      ≤ budget (start + lockout_secs) s
unfolding is_evaluated wrong_guess check record_failure
budget_step start t s c lo hi big = ground arith

wrong_guess-IsCounting :
    (t : ℕ) (s : LockoutState)
    → IsCounting s
    → t + lockout_secs < 2 ^ 64
    → IsCounting (wrong_guess s t)
unfolding wrong_guess check record_failure
wrong_guess-IsCounting t s c big = ground arith

evaluated-le-budget :
    (start : ℕ) (ts : List ℕ) (s : LockoutState)
    → IsCounting s
    → All (λ t. (start ≤ t) × (t < start + lockout_secs)) ts
    → start + 2 * lockout_secs < 2 ^ 64
    → evaluated s ts ≤ budget (start + lockout_secs) s
unfolding evaluated
evaluated-le-budget start [] s c h big = omega arith
evaluated-le-budget start (t ∷ ts) s c (h, hs) big = omega (
  arith,
  budget_step start t s c h.0 h.1 big,
  evaluated-le-budget start ts (wrong_guess s t) (wrong_guess-IsCounting t s c (omega arith)) hs
      big,
)

budget-le : (end : ℕ) (s : LockoutState) → budget end s ≤ 3
budget-le end s = ground arith

-- Of the wrong passwords typed within any 24 hours, in whatever order the clock shows them, at most
-- three are compared with the container's key; the others are refused by `check`. The window ends
-- within the range of u64, and outside of a lockout the count is below its largest value.
pub evaluated-le-max_attempts :
    (start : ℕ) (ts : List ℕ) (s : LockoutState)
    → IsCounting s
    → All (λ t. (start ≤ t) × (t < start + lockout_secs)) ts
    → start + 2 * lockout_secs < 2 ^ 64
    → evaluated s ts ≤ max_attempts
evaluated-le-max_attempts start ts s c h big =
    omega (arith, evaluated-le-budget start ts s c h big, budget-le (start + lockout_secs) s)

-- When `record_failure` reports a lockout, its end lies 24 hours after the failure, and `check` refuses
-- each earlier moment with that end, a clock set back included, and passes from that end on.
pub record_failure_locks :
    (s : LockoutState) (t until now : ℕ)
    → (record_failure s t).1 ≡ locked_out until
    → t + lockout_secs < 2 ^ 64
    → (until ≡ t + lockout_secs)
      × (check (record_failure s t).0 now
          ≡ (if ltb now until then err (locked_out until) else ok tt))
unfolding record_failure check
record_failure_locks s t until now e big = (ground arith, ground arith)

-- The errors of a run of wrong passwords, and the state after it.
unfoldable pub failures : LockoutState → List ℕ → List VaultError
failures s [] = []
failures s (t ∷ ts) = (record_failure s t).1 ∷ failures (record_failure s t).0 ts

abbrev counted : ℕ → LockoutState
counted n = record { fail_count = n; locked_until = 0 }

-- The state in which `record_failure` leaves the fields when it reports attempts left.
record_failure-counted :
    (s : LockoutState) (now n : ℕ)
    → check s now ≡ ok tt
    → (record_failure s now).1 ≡ wrong_password n
    → s.fail_count + 1 < 2 ^ 32
    → ((n ≡ 1) × ((record_failure s now).0 ≡ counted 2))
      ⊎ ((n ≡ 2) × ((record_failure s now).0 ≡ counted 1))
unfolding record_failure check
record_failure-counted s now n open_now e c = ground arith

failures_one_left :
    (t : ℕ)
    → t + lockout_secs < 2 ^ 64
    → failures (counted 2) (t ∷ []) ≡ locked_out (t + lockout_secs) ∷ []
unfolding failures record_failure
failures_one_left t h = ground arith

failures_two_left :
    (t' t : ℕ)
    → t + lockout_secs < 2 ^ 64
    → failures (counted 1) (t' ∷ t ∷ []) ≡ wrong_password 1 ∷ locked_out (t + lockout_secs) ∷ []
unfolding failures record_failure
failures_two_left t' t h = ground arith

-- "n attempts remaining" is what happens. After a wrong password that `check` let through, n is 1
-- and the next wrong password locks for 24 hours, or n is 2, the next one reports 1 attempt left and
-- the one after it locks for 24 hours. The count was below its largest value.
pub attempts_left_exact :
    (s : LockoutState) (now n t' t : ℕ)
    → check s now ≡ ok tt
    → (record_failure s now).1 ≡ wrong_password n
    → s.fail_count + 1 < 2 ^ 32
    → t' + lockout_secs < 2 ^ 64
    → t + lockout_secs < 2 ^ 64
    → ((n ≡ 1)
        × (failures (record_failure s now).0 (t' ∷ []) ≡ locked_out (t' + lockout_secs) ∷ []))
      ⊎ ((n ≡ 2)
          × (failures (record_failure s now).0 (t' ∷ t ∷ [])
              ≡ wrong_password 1 ∷ locked_out (t + lockout_secs) ∷ []))
attempts_left_exact s now n t' t open_now e c h' h =
    elim (record_failure-counted s now n open_now e c) [
      | inl (one, left) ↦ inl (one, rw left (failures_one_left t' h'))
      | inr (two, left) ↦ inr (two, rw left (failures_two_left t' t h))
    ]
