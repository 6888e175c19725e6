-- ===== src/Alerts/Retry.antt =====
-- The retries of pkg/alerts/webhook.go: how many attempts are made, how long the waits between them
-- are, and what comes back.
use cloudflared_fips.Prelude.{
  ℕ, zero, suc, ◌+◌, ◌-◌, ◌^◌, ◌<◌, ◌≡◌, ◌≢◌, refl, String, true, List, [], ◌∷◌, ◌++◌, Option, none,
  some, arith, ltb, if◌then◌else◌, inl, inr, Option-cases, ap, sym, ◌∙◌, ◌≤◌, ◌*◌, length,
  length-append, take,
}
use native.Mathlib.Nat.{pow-le-pow_right}
use native.Mathlib.Decide.{dec_lt}
use cloudflared_fips.Alerts.{RetryRun, sleep_for, retry_loop, send_with_retry}

-- the waits before the attempts `1` to `n`, as the loop takes them
abbrev pauses : ℕ → List ℕ
pauses zero = []
pauses (suc n) = pauses n ++ sleep_for n ∷ []

-- waits of 1, 2, 4, ... seconds
abbrev pub backoff : ℕ → List ℕ
backoff zero = []
backoff (suc n) = backoff n ++ (2 ^ n * 1000000000) ∷ []

-- There is one wait before each attempt but the first, and up to the 34th they double from a second.
abbrev pub Doubling : ℕ → List ℕ → Type 0
Doubling n sleeps = (length sleeps ≡ n) × (take 34 sleeps ≡ take 34 (backoff n))

sleep_for-doubles : (k : ℕ) → k < 34 → sleep_for k ≡ 2 ^ k * 1000000000
unfolding sleep_for
sleep_for-doubles k small =
    let below : 2 ^ k ≤ 2 ^ 33 = pow-le-pow_right (omega arith) {i = k} {j = 33} (omega arith) in
    ground (arith, below)

length-pauses : (n : ℕ) → length (pauses n) ≡ n
length-pauses zero = refl
length-pauses (suc n) = omega (arith, length-append (pauses n) (sleep_for n ∷ []), length-pauses n)

length-backoff : (n : ℕ) → length (backoff n) ≡ n
length-backoff zero = refl
length-backoff (suc n) =
    omega (arith, length-append (backoff n) ((2 ^ n * 1000000000) ∷ []), length-backoff n)

take-append : {A : Type 0} (n : ℕ) (xs ys : List A) → n ≤ length xs → take n (xs ++ ys) ≡ take n xs
take-append zero xs ys h = refl
take-append (suc n) [] ys h = absurd (omega arith)
take-append (suc n) (x ∷ xs) ys h = ap (◌∷◌ x) (take-append n xs ys (omega arith))

pauses-backoff : (n : ℕ) → n ≤ 34 → pauses n ≡ backoff n
pauses-backoff zero h = refl
pauses-backoff (suc n) h =
    rw (pauses-backoff n (omega arith), sleep_for-doubles n (omega arith)) refl

pauses-Doubling : (n : ℕ) → Doubling n (pauses n)
pauses-Doubling n = (length-pauses n, go n)
  where
    go : (n : ℕ) → take 34 (pauses n) ≡ take 34 (backoff n)
    go zero = refl
    go (suc n) = elim (dec_lt n 34) [
      | yes small ↦ ap (take 34) (pauses-backoff (suc n) (omega arith))
      | no large ↦
          take-append 34 (pauses n) (sleep_for n ∷ []) (omega (arith, length-pauses n))
          ∙ go n
          ∙ sym (
              take-append 34 (backoff n) ((2 ^ n * 1000000000) ∷ [])
                (omega (arith, length-backoff n)))
    ]

-- Where the loop stands after `n` failed attempts of `send`.
record IsFailing (send : ℕ → Option String) (n : ℕ) (run : RetryRun) : Type 0 where
  made : run.attempts ≡ n
  slept : run.sleeps ≡ pauses (n - 1)
  failed : (k : ℕ) → k < n → send k ≢ none
  last : 0 < n → run.error ≡ send (n - 1)

-- How the delivery ended: at its first success, or when all attempts failed.
pub data Ended (send : ℕ → Option String) (max : ℕ) (run : RetryRun) : Type 0 where
  delivered :
      (n : ℕ)
      → n < max
      → send n ≡ none
      → ((k : ℕ) → k < n → send k ≢ none)
      → run.attempts ≡ n + 1
      → run.error ≡ none
      → Doubling n run.sleeps
      → Ended send max run
  gave_up :
      ((k : ℕ) → k < max → send k ≢ none)
      → run.attempts ≡ max
      → run.error ≡ send (max - 1)
      → Doubling (max - 1) run.sleeps
      → Ended send max run

sleeps-next :
    (n : ℕ) (slept : List ℕ)
    → slept ≡ pauses (n - 1)
    → (if ltb 0 n then slept ++ sleep_for (n - 1) ∷ [] else slept) ≡ pauses n
sleeps-next zero slept h = h
sleeps-next (suc m) slept h =
    let e : suc m - 1 ≡ m = omega arith in
    let positive : ltb 0 (suc m) ≡ true = ground arith in rw (h, e, positive)

failed-next :
    (send : ℕ → Option String) (n : ℕ) (m : String)
    → ((k : ℕ) → k < n → send k ≢ none)
    → send n ≡ some m
    → (k : ℕ) → k < n + 1
    → send k ≢ none
failed-next send n m before e k lt now = elim (dec_lt k n) [
  | yes less ↦ before k less now
  | no more ↦ let same : k ≡ n = omega arith in cc (e, now, ap send same)
]

error-last : (send : ℕ → Option String) (n : ℕ) → send n ≡ send (n + 1 - 1)
error-last send n = ap send (omega arith)

retry_loop-Ended :
    (send : ℕ → Option String) (rounds n : ℕ) (run : RetryRun)
    → 0 < n + rounds
    → IsFailing send n run
    → Ended send (n + rounds) (retry_loop send rounds n run)
unfolding retry_loop
retry_loop-Ended send zero n run pos f =
    let e : n + 0 ≡ n = omega arith in
    gave_up (λ k lt. f.failed k (omega arith)) (omega (arith, f.made)) (rw e (f.last (omega arith)))
      (rw (e, f.slept) (pauses-Doubling (n - 1)))
retry_loop-Ended send (suc rounds) n run pos f = elim (Option-cases (send n)) [
  | inl e ↦
      rw (e, retry_loop)
        (delivered n (omega arith) e f.failed (omega (arith, f.made)) e
          (rw (sleeps-next n run.sleeps f.slept) (pauses-Doubling n)))
  | inr (m, e) ↦
      let e' : n + suc rounds ≡ n + 1 + rounds = omega arith in
      rw (e, retry_loop, e')
        (retry_loop-Ended send rounds (n + 1)
          (record {
            attempts = run.attempts + 1;
            sleeps = if ltb 0 n then run.sleeps ++ sleep_for (n - 1) ∷ [] else run.sleeps;
            error = send n;
          })
          (omega arith)
          (record {
            made = omega (arith, f.made);
            slept =
                sleeps-next n run.sleeps f.slept ∙ ap pauses {x = n} {y = n + 1 - 1} (omega arith);
            failed = failed-next send n m f.failed e;
            last = λ h. error-last send n;
          }))
]

-- With at least one attempt allowed, a delivery ends in one of two ways: at its first successful
-- attempt, with no error, or after all the attempts allowed, with the error of the last. There is one
-- wait before each attempt but the first, and the first 34 waits are 1, 2, 4, ... seconds.
pub send_with_retry-Ended :
    (send : ℕ → Option String) (max_retries : ℕ)
    → 0 < max_retries
    → Ended send max_retries (send_with_retry send max_retries)
unfolding send_with_retry
send_with_retry-Ended send max_retries pos =
    let e : 0 + max_retries ≡ max_retries = omega arith in
    rw e at (
      retry_loop-Ended send max_retries 0 (record { attempts = 0; sleeps = []; error = none })
        (omega arith)
        (record {
          made = refl;
          slept = refl;
          failed = λ k lt. absurd (omega arith);
          last = λ h. absurd (omega arith);
        }))
