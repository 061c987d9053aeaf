-- ===== src/Retention/Policies/Batch.antt =====
-- `loadRetentionPolicyBatch` of workers/retention/src/index.ts: the batches leave out no workspace.
use mathlib.Core.List.{Memᴰ}
use alphaping.Prelude.{
  ℕ, zero, suc, ◌+◌, ◌≤◌, ◌<◌, ◌≡◌, ◌⊎◌, refl, ap, Bool, true, Bool-cases, inl, inr, ltb, lt→ltb,
  ltb→lt, List, [], ◌∷◌, filter, take, take_whole, length, length-take, All, All-mono, All-intro,
  All-filter, All-Memᴰ, Memᴰ-filter, arith,
}
use alphaping.Retention.Policies.{
  RetentionRun, last_or, previous_cursor, load_retention_policy_batch,
}
use alphaping.Retention.Policies.Starts.{StartsAt, previous_cursor-eq}

abbrev pub IsIncreasing : List ℕ → Type 0
IsIncreasing [] = Unit
IsIncreasing (x ∷ xs) = All (λ y. x < y) xs × IsIncreasing xs

filter-IsIncreasing :
    (test : ℕ → Bool) (xs : List ℕ) → IsIncreasing xs → IsIncreasing (filter test xs)
filter-IsIncreasing test [] sorted = tt
filter-IsIncreasing test (x ∷ xs) (below, sorted) = elim (Bool-cases (test x)) [
  | inl e ↦ rw e (
    All-mono {P = λ y. (x < y) × (test y ≡ true)} (filter test xs) (λ y (less, _). less)
        (All-filter (λ y. x < y) test xs below),
    filter-IsIncreasing test xs sorted,
  )
  | inr e ↦ rw e (filter-IsIncreasing test xs sorted)
]

-- Of increasing keys, one that is not past the last of the first few is among them.
take-Memᴰ :
    (n start : ℕ) (xs : List ℕ) (x : ℕ)
    → IsIncreasing xs
    → Memᴰ x xs
    → start < x
    → x ≤ last_or start (take n xs)
    → Memᴰ x (take n xs)
take-Memᴰ zero start xs x sorted m less bound = absurd (omega (arith, less, bound))
take-Memᴰ (suc n) start [] x sorted m less bound = elim m [ ]
take-Memᴰ (suc n) start (y ∷ xs) x sorted (Memᴰ.head e) less bound = Memᴰ.head e
take-Memᴰ (suc n) start (y ∷ xs) x (below, sorted) (Memᴰ.tail m) less bound =
    Memᴰ.tail (take-Memᴰ n y xs x sorted m (All-Memᴰ (λ z. y < z) xs below m) bound)

take-take-suc : (n : ℕ) (xs : List ℕ) → take n (take (suc n) xs) ≡ take n xs
take-take-suc zero xs = refl
take-take-suc (suc n) [] = refl
take-take-suc (suc n) (x ∷ xs) = ap (λ l. x ∷ l) (take-take-suc n xs)

-- The default of the last of a list that is not empty does not matter.
last_or-default : (a b : ℕ) (xs : List ℕ) → 0 < length xs → last_or a xs ≡ last_or b xs
last_or-default a b [] h = absurd (omega (arith, h))
last_or-default a b (x ∷ xs) h = refl

last_or-positive :
    (start : ℕ) (xs : List ℕ) → 0 < start → All (λ x. 0 < x) xs → 0 < last_or start xs
last_or-positive start [] h above = h
last_or-positive start (x ∷ xs) h (first, above) = last_or-positive x xs first above

take-All : (P : ℕ → Type 0) (n : ℕ) (xs : List ℕ) → All P xs → All P (take n xs)
take-All P zero xs ps = tt
take-All P (suc n) [] ps = tt
take-All P (suc n) (x ∷ xs) (p, ps) = (p, take-All P n xs ps)

take_all : (n : ℕ) (xs : List ℕ) → length xs ≤ n → take n xs ≡ xs
take_all zero [] h = refl
take_all zero (x ∷ xs) h = absurd (omega (arith, h))
take_all (suc n) [] h = refl
take_all (suc n) (x ∷ xs) h = ap (λ l. x ∷ l) (take_all n xs (omega (arith, h)))

take-add_one : (n : ℕ) (xs : List ℕ) → take n (take (n + 1) xs) ≡ take n xs
take-add_one n xs = let same : n + 1 ≡ suc n = omega arith in rw same (take-take-suc n xs)

batch-Memᴰ :
    (workspaces : List ℕ) (runs : List RetentionRun) (run_id limit workspace : ℕ)
    → 0 < limit
    → IsIncreasing workspaces
    → Memᴰ workspace workspaces
    → (load_retention_policy_batch workspaces runs run_id limit).workspace_cursor < workspace
    → (workspace ≤ (load_retention_policy_batch workspaces runs run_id limit).next_workspace_cursor)
      ⊎ ((load_retention_policy_batch workspaces runs run_id limit).next_workspace_cursor ≡ 0)
    → Memᴰ workspace (load_retention_policy_batch workspaces runs run_id limit).policies
unfolding load_retention_policy_batch
batch-Memᴰ workspaces runs run_id limit workspace some_limit sorted m past reached =
    let cursor = previous_cursor runs run_id in
    let fresh = filter (ltb cursor) workspaces in
    let m' : Memᴰ workspace fresh =
      Memᴰ-filter (ltb cursor) workspaces m (lt→ltb cursor workspace past) in
    let first_few = take limit (take (limit + 1) fresh) in
    let positive : All (λ x. 0 < x) fresh =
      All-mono {P = λ (x : ℕ). Unit {0} × (ltb cursor x ≡ true)} fresh
        (λ x (_, h). ground (arith, h))
        (All-filter (λ x. Unit {0}) (ltb cursor) workspaces (All-intro _ workspaces (λ x m. tt))) in
    elim (Bool-cases (ltb limit (length (take (limit + 1) fresh)))) [
      | inr fits ↦
          let whole : take (limit + 1) fresh ≡ fresh =
            take_whole (limit + 1) fresh (ground (arith, fits)) in
          let few = rw whole at fits in
          rw (take-add_one limit fresh, take_all limit fresh (ground (arith, few))) m'
      | inl more ↦
          let count = ltb→lt limit (length (take (limit + 1) fresh)) more in
          let filled : 0 < length (take limit fresh) =
            omega
              (arith, some_limit, count, length-take (limit + 1) fresh, length-take limit fresh) in
          let end : last_or 0 (take limit fresh) ≡ last_or cursor (take limit fresh) =
            last_or-default 0 cursor (take limit fresh) filled in
          elim reached [
            | inl le ↦
                let le' = rw (load_retention_policy_batch, more, take-add_one) at le in
                rw (take-add_one limit fresh) (
                  take-Memᴰ limit cursor fresh workspace
                    (filter-IsIncreasing (ltb cursor) workspaces sorted) m' past
                    (omega (arith, le', end)))
            | inr restarts ↦
                let restarts' = rw (load_retention_policy_batch, more, take-add_one) at restarts in
                let above =
                  last_or-positive 1 (take limit fresh) (omega arith)
                    (take-All (λ x. 0 < x) limit fresh positive) in
                absurd
                  (omega (arith, restarts', above, last_or-default 0 1 (take limit fresh) filled))
          ]
    ]

-- The batch of a run begins at the cursor of the latest earlier run that completed without an error, and at 0
-- without one; the ids of runs are unique. A workspace past that cursor is in the batch, where it is not past
-- the cursor that the batch ends at, and where that is 0, at which the next batch begins again.
pub load_retention_policy_batch-Memᴰ :
    (workspaces : List ℕ) (runs : List RetentionRun) (run_id limit cursor workspace : ℕ)
    → 0 < limit
    → IsIncreasing workspaces
    → ((a b : RetentionRun) → Memᴰ a runs → Memᴰ b runs → a.run_id ≡ b.run_id → a ≡ b)
    → StartsAt runs run_id cursor
    → Memᴰ workspace workspaces
    → cursor < workspace
    → (workspace ≤ (load_retention_policy_batch workspaces runs run_id limit).next_workspace_cursor)
      ⊎ ((load_retention_policy_batch workspaces runs run_id limit).next_workspace_cursor ≡ 0)
    → ((load_retention_policy_batch workspaces runs run_id limit).workspace_cursor ≡ cursor)
      × Memᴰ workspace (load_retention_policy_batch workspaces runs run_id limit).policies
unfolding load_retention_policy_batch
load_retention_policy_batch-Memᴰ workspaces runs run_id limit cursor workspace some_limit sorted
      keys starts m past reached =
    let start = previous_cursor-eq runs run_id cursor keys starts in
    (
      start,
      batch-Memᴰ workspaces runs run_id limit workspace some_limit sorted m
          (omega (arith, start, past)) reached,
    )
