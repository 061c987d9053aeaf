-- ===== src/Retention/Telemetry/Removed.antt =====
-- `cleanTelemetryTarget` of workers/retention/src/telemetry-retention.ts: which rows are removed.
use mathlib.Core.List.{Memᴰ}
use alphaping.Prelude.{
  ℕ, zero, suc, ◌+◌, ◌*◌, ◌&&◌, ◌==◌, ltb, Option, none, some, filter, take, All-filter, All-Memᴰ,
  ◌≤◌, ◌<◌, ◌≡◌, ◌⊎◌, refl, Bool, true, false, Bool-cases, inl, inr, leb, List, [], ◌∷◌, length,
  All, All-intro, arith,
}
use alphaping.Prelude.Int.{ℤ, pos, sub_ℕ, ltb_ℤ}
use alphaping.Retention.Telemetry.{
  day_ms, policy_days, holds, RetentionPolicyRow, RetentionTarget, TelemetryRow, ResourceRow,
  TargetState, Pass, is_old, delete_first, delete_resource_rows, clean_resources, cutoff_of,
  cursor_resource, cursor_time, select_resources, clean_telemetry_target,
}

module _ {ℓ} {A : Type ℓ} (test : A → Bool) where
  pub delete_first-Memᴰ :
      (limit : ℕ) (rows : List A) (row : A)
      → Memᴰ row rows
      → Memᴰ row (delete_first limit test rows).0 ⊎ (test row ≡ true)
  unfolding delete_first
  delete_first-Memᴰ limit [] row m = elim m [ ]
  delete_first-Memᴰ zero (first ∷ rows) row m = inl m
  delete_first-Memᴰ (suc limit) (first ∷ rows) row (Memᴰ.head e) = elim (Bool-cases (test first)) [
    | inl h ↦ inr (rw e h)
    | inr h ↦ rw (delete_first, h) (inl (Memᴰ.head e))
  ]
  delete_first-Memᴰ (suc limit) (first ∷ rows) row (Memᴰ.tail m) = elim (Bool-cases (test first)) [
    | inl h ↦ rw (delete_first, h) (delete_first-Memᴰ limit rows row m)
    | inr h ↦
        rw (delete_first, h)
          (elim (delete_first-Memᴰ (suc limit) rows row m) [
            | inl m' ↦ inl (Memᴰ.tail m')
            | inr old ↦ inr old
          ])
  ]

  pub delete_first-All :
      (P : A → Type 0) (limit : ℕ) (rows : List A)
      → All P rows
      → All P (delete_first limit test rows).0
  unfolding delete_first
  delete_first-All P limit [] ps = tt
  delete_first-All P zero (first ∷ rows) ps = ps
  delete_first-All P (suc limit) (first ∷ rows) (p, ps) = elim (Bool-cases (test first)) [
    | inl h ↦ rw (delete_first, h) (delete_first-All P limit rows ps)
    | inr h ↦ rw (delete_first, h) (p, delete_first-All P (suc limit) rows ps)
  ]

  pub delete_first-length :
      (limit : ℕ) (rows : List A)
      → ((delete_first limit test rows).1 + length (delete_first limit test rows).0 ≡ length rows)
        × ((delete_first limit test rows).1 ≤ limit)
  unfolding delete_first
  delete_first-length limit [] = (omega arith, omega arith)
  delete_first-length zero (first ∷ rows) = (omega arith, omega arith)
  delete_first-length (suc limit) (first ∷ rows) = elim (Bool-cases (test first)) [
    | inl h ↦
        let (total, bound) = delete_first-length limit rows in
        rw (delete_first, h) (omega (arith, total), omega (arith, bound))
    | inr h ↦
        let (total, bound) = delete_first-length (suc limit) rows in
        rw (delete_first, h) (omega (arith, total), bound)
  ]

  -- Fewer rows than the limit are removed where none is left.
  pub delete_first-none_left :
      (limit : ℕ) (rows : List A)
      → (delete_first limit test rows).1 < limit
      → All (λ row. test row ≡ false) (delete_first limit test rows).0
  unfolding delete_first
  delete_first-none_left limit [] h = tt
  delete_first-none_left zero (first ∷ rows) h = absurd (omega (arith, h))
  delete_first-none_left (suc limit) (first ∷ rows) h = elim (Bool-cases (test first)) [
    | inl e ↦
        let h' = rw (delete_first, e) at h in
        rw (delete_first, e) (delete_first-none_left limit rows (omega (arith, h')))
    | inr e ↦
        rw (delete_first, e)
          (e, delete_first-none_left (suc limit) rows (rw (delete_first, e) at h))
  ]

module _ (target : RetentionTarget) (cutoff : ℤ) where
  -- The row is of one of the resources, and older than the cutoff.
  IsSelected : List ResourceRow → TelemetryRow → Type 0
  IsSelected resources row =
      (resource : ResourceRow) × Memᴰ resource resources
      × (is_old target resource.telemetry_pk cutoff row ≡ true)

module _ (target : RetentionTarget) (cutoff : ℤ) (limit : ℕ) where
  clean_resources-Memᴰ :
      (resources : List ResourceRow) (pass : Pass) (row : TelemetryRow)
      → Memᴰ row pass.rows
      → Memᴰ row (clean_resources target cutoff limit resources pass).rows
        ⊎ IsSelected target cutoff resources row
  unfolding clean_resources delete_resource_rows IsSelected
  clean_resources-Memᴰ [] pass row m = inl m
  clean_resources-Memᴰ (resource ∷ resources) pass row m =
      let removed = delete_resource_rows target pass.rows resource.telemetry_pk cutoff limit in
      elim (delete_first-Memᴰ (is_old target resource.telemetry_pk cutoff) limit pass.rows row m) [
        | inr old ↦ inr (resource, Memᴰ.head refl, old)
        | inl m' ↦ elim (Bool-cases (leb limit removed.1)) [
          | inl full ↦ rw (clean_resources, full) (inl m')
          | inr more ↦
              rw (clean_resources, more)
                (elim (clean_resources-Memᴰ resources
                  (record {
                    rows = removed.0;
                    deleted = pass.deleted + removed.1;
                    next_resource_cursor = resource.telemetry_pk;
                    completed_cutoff = cutoff;
                    target_batch_filled = pass.target_batch_filled;
                  })
                  row m') [
                    | inl m'' ↦ inl m''
                    | inr (other, there, old) ↦ inr (other, Memᴰ.tail there, old)
                  ])
        ]
      ]

  clean_resources-length :
      (resources : List ResourceRow) (pass : Pass)
      → (clean_resources target cutoff limit resources pass).deleted
          + length (clean_resources target cutoff limit resources pass).rows
        ≡ pass.deleted + length pass.rows
  unfolding clean_resources delete_resource_rows
  clean_resources-length [] pass = refl
  clean_resources-length (resource ∷ resources) pass =
      let removed = delete_resource_rows target pass.rows resource.telemetry_pk cutoff limit in
      let (total, _) =
        delete_first-length (is_old target resource.telemetry_pk cutoff) limit pass.rows in
      elim (Bool-cases (leb limit removed.1)) [
        | inl full ↦ rw (clean_resources, full) (omega (arith, total))
        | inr more ↦
            let rest = clean_resources-length resources (record {
              rows = removed.0;
              deleted = pass.deleted + removed.1;
              next_resource_cursor = resource.telemetry_pk;
              completed_cutoff = cutoff;
              target_batch_filled = pass.target_batch_filled;
            }) in
            rw (clean_resources, more) (omega (arith, total, rest))
      ]

holds-eq :
    (expected : Option ℕ) (value n : ℕ)
    → holds expected value ≡ true
    → expected ≡ some n
    → value ≡ n
holds-eq none value n h e = cc
holds-eq (some m) value n h e =
    let same : m ≡ n = cc in let here : value ≡ m = ground (arith, h) in omega (arith, same, here)

before_cutoff : (time now span : ℕ) → ltb_ℤ (pos time) (sub_ℕ now span) ≡ true → time + span < now
before_cutoff time now span h = elim (Bool-cases (leb span now)) [
  | inl past ↦ let h' = rw past at h in ground (arith, past, h')
  | inr early ↦ let h' = rw early at h in absurd (ground (arith, early, h'))
]

cutoff_before : (time now span : ℕ) → time + span < now → ltb_ℤ (pos time) (sub_ℕ now span) ≡ true
cutoff_before time now span h =
    let past : leb span now ≡ true = ground (arith, h) in rw past (ground (arith, h))

-- The row is of the resource, of the target's resource type and bucket where it has them, and older than the
-- days that the policy keeps for the target.
pub record IsExpired (policy : RetentionPolicyRow) (target : RetentionTarget) (now : ℕ)
    (resource : ResourceRow) (row : TelemetryRow) : Type 0 where
  pub is_of : row.resource_pk ≡ resource.telemetry_pk
  pub has_type : (type : ℕ) → target.resource_type ≡ some type → row.resource_type ≡ type
  pub is_bucketed :
      (seconds : ℕ) → target.bucket_seconds ≡ some seconds → row.bucket_seconds ≡ seconds
  pub is_older : row.time + policy_days policy target.retention_days * day_ms < now

is_old-IsExpired :
    (policy : RetentionPolicyRow) (target : RetentionTarget) (now : ℕ) (resource : ResourceRow)
    (row : TelemetryRow)
    → is_old target resource.telemetry_pk (cutoff_of policy target now) row ≡ true
    → IsExpired policy target now resource row
is_old-IsExpired policy target now resource row h = record {
  is_of = ground (arith, h);
  has_type = λ type e. holds-eq target.resource_type row.resource_type type (ground (arith, h)) e;
  is_bucketed =
      λ seconds e. holds-eq target.bucket_seconds row.bucket_seconds seconds (ground (arith, h)) e;
  is_older =
      before_cutoff row.time now (policy_days policy target.retention_days * day_ms)
        (ground (arith, h));
}

IsExpired-holds :
    (expected : Option ℕ) (value : ℕ)
    → ((n : ℕ) → expected ≡ some n → value ≡ n)
    → holds expected value ≡ true
IsExpired-holds none value h = refl
IsExpired-holds (some n) value h = let same = h n refl in ground (arith, same)

pub IsExpired-is_old :
    (policy : RetentionPolicyRow) (target : RetentionTarget) (now : ℕ) (resource : ResourceRow)
    (row : TelemetryRow)
    → IsExpired policy target now resource row
    → is_old target resource.telemetry_pk (cutoff_of policy target now) row ≡ true
IsExpired-is_old policy target now resource row x =
    let is_of = x.is_of in
    let typed = IsExpired-holds target.resource_type row.resource_type x.has_type in
    let bucketed = IsExpired-holds target.bucket_seconds row.bucket_seconds x.is_bucketed in
    let past =
      cutoff_before row.time now (policy_days policy target.retention_days * day_ms) x.is_older in
    rw (typed, bucketed, past) (ground (arith, is_of))

take-All : (P : ResourceRow → Type 0) (n : ℕ) (xs : List ResourceRow) → All P xs → All P (take n xs)
take-All P zero xs ps = tt
take-All P (suc n) [] ps = tt
take-All P (suc n) (x ∷ xs) (p, ps) = (p, take-All P n xs ps)

select_resources-owned :
    (resources : List ResourceRow) (workspace_pk cursor limit : ℕ) (resource : ResourceRow)
    → Memᴰ resource (select_resources resources workspace_pk cursor limit)
    → Memᴰ resource resources × (resource.workspace_pk ≡ workspace_pk)
unfolding select_resources
select_resources-owned resources workspace_pk cursor limit resource m =
    let test : ResourceRow → Bool =
      λ resource. (resource.workspace_pk == workspace_pk) && ltb cursor resource.telemetry_pk in
    let (owned, h) =
      All-Memᴰ (λ (r : ResourceRow). Memᴰ r resources × (test r ≡ true))
        (take limit (filter test resources))
        (take-All (λ (r : ResourceRow). Memᴰ r resources × (test r ≡ true)) limit
          (filter test resources)
          (All-filter (λ r. Memᴰ r resources) test resources (All-intro _ resources (λ r m'. m'))))
        m in
    (owned, ground (arith, h))

-- A row that a run removes for a target is of a resource of the policy's workspace, of the resource type and
-- the bucket that the target has, and older than the days that the policy keeps for it; and the number
-- returned is that of the rows removed.
pub clean_telemetry_target-removed :
    (resources : List ResourceRow) (policy : RetentionPolicyRow) (target : RetentionTarget)
    (now resource_limit row_limit : ℕ) (state : TargetState)
    → All
        (λ row.
          Memᴰ row
            (clean_telemetry_target resources policy target now resource_limit row_limit
              state).0.rows
          ⊎ ((resource : ResourceRow) × Memᴰ resource resources
              × (resource.workspace_pk ≡ policy.workspace_pk)
              × IsExpired policy target now resource row))
        state.rows
      × ((clean_telemetry_target resources policy target now resource_limit row_limit state).1
            + length
                (clean_telemetry_target resources policy target now resource_limit row_limit
                  state).0.rows
          ≡ length state.rows)
unfolding clean_telemetry_target IsSelected
clean_telemetry_target-removed resources policy target now resource_limit row_limit state =
    let previous = cursor_resource state.cursor in
    let cutoff = cutoff_of policy target now in
    let selected = select_resources resources policy.workspace_pk previous resource_limit in
    let pass : Pass = record {
      rows = state.rows;
      deleted = 0;
      next_resource_cursor = previous;
      completed_cutoff = cursor_time state.cursor;
      target_batch_filled = false;
    } in
    let total = clean_resources-length target cutoff row_limit selected pass in
    (
      All-intro _ state.rows (λ row m.
          elim (clean_resources-Memᴰ target cutoff row_limit selected pass row m) [
            | inl kept ↦ inl kept
            | inr (resource, there, old) ↦
                let (owned, ours) =
                  select_resources-owned resources policy.workspace_pk previous resource_limit
                    resource there in
                inr (resource, owned, ours, is_old-IsExpired policy target now resource row old)
          ]),
      omega (arith, total),
    )
