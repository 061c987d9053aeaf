-- ===== src/Retention/Telemetry/Cleaned.antt =====
-- `cleanTelemetryTarget` of workers/retention/src/telemetry-retention.ts: what its cursor says.
use mathlib.Core.List.{Memᴰ}
use mathlib.Core.List.Memᴰ
use alphaping.Prelude.{
  ℕ, zero, suc, ◌+◌, ◌≤◌, ◌<◌, ◌≡◌, ◌⊎◌, refl, Bool, true, false, Bool-cases, inl, inr, ◌&&◌, ltb,
  leb, ◌==◌, List, [], ◌∷◌, filter, take, All, All-mono, All-intro, All-filter, All-Memᴰ, arith, ap,
  length, not, Memᴰ-filter,
}
use alphaping.Prelude.Int.{ℤ}
use alphaping.Retention.Telemetry.{
  RetentionPolicyRow, RetentionTarget, TelemetryRow, ResourceRow, TargetState, Pass, is_old,
  delete_first, delete_resource_rows, clean_resources, cutoff_of, cursor_resource, cursor_time,
  select_resources, clean_telemetry_target,
}
use alphaping.Retention.Telemetry.Removed.{
  delete_first-All, delete_first-none_left, IsExpired, IsExpired-is_old,
}

-- Resources in the order of their keys.
abbrev pub IsIncreasing : List ResourceRow → Type 0
IsIncreasing [] = Unit
IsIncreasing (resource ∷ resources) =
    All (λ later. resource.telemetry_pk < later.telemetry_pk) resources × IsIncreasing resources

module _ (target : RetentionTarget) (cutoff : ℤ) where
  -- No row of the resource is older than the cutoff.
  abbrev pub IsClean : List TelemetryRow → ℕ → Type 0
  IsClean rows resource_pk = All (λ row. is_old target resource_pk cutoff row ≡ false) rows

module _ (target : RetentionTarget) (cutoff : ℤ) (limit : ℕ) where
  clean_resources-IsClean :
      (resources : List ResourceRow) (pass : Pass) (resource_pk : ℕ)
      → IsClean target cutoff pass.rows resource_pk
      → IsClean target cutoff (clean_resources target cutoff limit resources pass).rows resource_pk
  unfolding clean_resources delete_resource_rows
  clean_resources-IsClean [] pass resource_pk clean = clean
  clean_resources-IsClean (resource ∷ resources) pass resource_pk clean =
      let test = is_old target resource.telemetry_pk cutoff in
      let removed = delete_first limit test pass.rows in
      let kept =
        delete_first-All test (λ row. is_old target resource_pk cutoff row ≡ false) limit pass.rows
          clean in
      elim (Bool-cases (leb limit removed.1)) [
        | inl full ↦ rw (clean_resources, full) kept
        | inr more ↦
            rw (clean_resources, more)
              (clean_resources-IsClean resources
                (record {
                  rows = removed.0;
                  deleted = pass.deleted + removed.1;
                  next_resource_cursor = resource.telemetry_pk;
                  completed_cutoff = cutoff;
                  target_batch_filled = pass.target_batch_filled;
                })
                resource_pk kept)
      ]

  -- Of the resources past the cursor of before, those up to the new one are clean, and all of them where the
  -- loop is not stopped.
  clean_resources-cursor :
      (resources : List ResourceRow) (pass : Pass) (resource : ResourceRow)
      → IsIncreasing resources
      → All (λ later. pass.next_resource_cursor < later.telemetry_pk) resources
      → Memᴰ resource resources
      → (resource.telemetry_pk
          ≤ (clean_resources target cutoff limit resources pass).next_resource_cursor)
        ⊎ ((clean_resources target cutoff limit resources pass).target_batch_filled ≡ false)
      → IsClean target cutoff
          (clean_resources target cutoff limit resources pass).rows
          resource.telemetry_pk
  unfolding clean_resources delete_resource_rows
  clean_resources-cursor [] pass resource sorted past m reached = elim m [ ]
  clean_resources-cursor (first ∷ resources) pass resource (below, sorted) (past, pasts) m reached =
      let test = is_old target first.telemetry_pk cutoff in
      let removed = delete_first limit test pass.rows in
      let next : Pass = record {
        rows = removed.0;
        deleted = pass.deleted + removed.1;
        next_resource_cursor = first.telemetry_pk;
        completed_cutoff = cutoff;
        target_batch_filled = pass.target_batch_filled;
      } in
      elim (Bool-cases (leb limit removed.1)) [
        | inl full ↦
            let ahead : pass.next_resource_cursor < resource.telemetry_pk =
              All-Memᴰ (λ later. pass.next_resource_cursor < later.telemetry_pk) (first ∷ resources)
                (past, pasts) m in
            elim reached [
              | inl le ↦
                  absurd (let le' = rw (clean_resources, full) at le in omega (arith, ahead, le'))
              | inr open_batch ↦ cc (rw (clean_resources, full) at open_batch)
            ]
        | inr more ↦
            rw (clean_resources, more)
              (elim (Memᴰ.cases_cons m) [
                | inl same ↦ rw same (
                    clean_resources-IsClean resources next first.telemetry_pk
                      (delete_first-none_left test limit pass.rows (ground (arith, more))))
                | inr later ↦
                    clean_resources-cursor resources next resource sorted below later
                      (rw (clean_resources, more) at reached)
              ])
      ]

  -- A loop that is stopped has removed as many rows as the limit.
  clean_resources-filled :
      (resources : List ResourceRow) (pass : Pass)
      → pass.target_batch_filled ≡ false
      → (clean_resources target cutoff limit resources pass).deleted < limit
      → (clean_resources target cutoff limit resources pass).target_batch_filled ≡ false
  unfolding clean_resources
  clean_resources-filled [] pass open_batch few = open_batch
  clean_resources-filled (first ∷ resources) pass open_batch few =
      let removed = delete_resource_rows target pass.rows first.telemetry_pk cutoff limit in
      elim (Bool-cases (leb limit removed.1)) [
        | inl full ↦
            let few' = rw (clean_resources, full) at few in absurd (ground (arith, full, few'))
        | inr more ↦
            rw (clean_resources, more)
              (clean_resources-filled resources
                (record {
                  rows = removed.0;
                  deleted = pass.deleted + removed.1;
                  next_resource_cursor = first.telemetry_pk;
                  completed_cutoff = cutoff;
                  target_batch_filled = pass.target_batch_filled;
                })
                open_batch (rw (clean_resources, more) at few))
      ]

filter-IsIncreasing :
    (test : ResourceRow → Bool) (resources : List ResourceRow)
    → IsIncreasing resources
    → IsIncreasing (filter test resources)
filter-IsIncreasing test [] sorted = tt
filter-IsIncreasing test (first ∷ resources) (below, sorted) = elim (Bool-cases (test first)) [
  | inl e ↦ rw e (
    All-mono {P = λ later. (first.telemetry_pk < later.telemetry_pk) × (test later ≡ true)}
        (filter test resources) (λ later (less, _). less)
        (All-filter (λ later. first.telemetry_pk < later.telemetry_pk) test resources below),
    filter-IsIncreasing test resources sorted,
  )
  | inr e ↦ rw e (filter-IsIncreasing test resources sorted)
]

take-All : (P : ResourceRow → Type 0) (n : ℕ) (xs : List ResourceRow) → All P xs → All P (take n xs)
take-All P zero xs ps = tt
take-All P (suc n) [] ps = tt
take-All P (suc n) (x ∷ xs) (p, ps) = (p, take-All P n xs ps)

take-IsIncreasing : (n : ℕ) (xs : List ResourceRow) → IsIncreasing xs → IsIncreasing (take n xs)
take-IsIncreasing zero xs sorted = tt
take-IsIncreasing (suc n) [] sorted = tt
take-IsIncreasing (suc n) (x ∷ xs) (below, sorted) = (
  take-All (λ later. x.telemetry_pk < later.telemetry_pk) n xs below,
  take-IsIncreasing n xs sorted,
)

select_resources-past :
    (resources : List ResourceRow) (workspace_pk cursor limit : ℕ)
    → All
        (λ later. cursor < later.telemetry_pk)
        (select_resources resources workspace_pk cursor limit)
unfolding select_resources
select_resources-past resources workspace_pk cursor limit =
    let test : ResourceRow → Bool =
      λ resource. (resource.workspace_pk == workspace_pk) && ltb cursor resource.telemetry_pk in
    take-All (λ later. cursor < later.telemetry_pk) limit (filter test resources)
      (All-mono {P = λ (later : ResourceRow). Unit {0} × (test later ≡ true)}
        (filter test resources) (λ later (_, h). ground (arith, h))
        (All-filter (λ later. Unit {0}) test resources (All-intro _ resources (λ later m. tt))))

select_resources-IsIncreasing :
    (resources : List ResourceRow) (workspace_pk cursor limit : ℕ)
    → IsIncreasing resources
    → IsIncreasing (select_resources resources workspace_pk cursor limit)
unfolding select_resources
select_resources-IsIncreasing resources workspace_pk cursor limit sorted =
    let test : ResourceRow → Bool =
      λ resource. (resource.workspace_pk == workspace_pk) && ltb cursor resource.telemetry_pk in
    take-IsIncreasing limit (filter test resources) (filter-IsIncreasing test resources sorted)

-- The key of the last resource.
abbrev last_resource : ℕ → List ResourceRow → ℕ
last_resource start [] = start
last_resource start (resource ∷ resources) = last_resource resource.telemetry_pk resources

last_resource-le :
    (start : ℕ) (resources : List ResourceRow)
    → IsIncreasing resources
    → All (λ later. start < later.telemetry_pk) resources
    → start ≤ last_resource start resources
last_resource-le start [] sorted past = omega arith
last_resource-le start (first ∷ resources) (below, sorted) (past, pasts) =
    let le = last_resource-le first.telemetry_pk resources sorted below in omega (arith, le, past)

-- Of resources with increasing keys, one that is not past the last of the first few is among them.
take-Memᴰ :
    (n start : ℕ) (resources : List ResourceRow) (resource : ResourceRow)
    → IsIncreasing resources
    → Memᴰ resource resources
    → start < resource.telemetry_pk
    → resource.telemetry_pk ≤ last_resource start (take n resources)
    → Memᴰ resource (take n resources)
take-Memᴰ zero start resources resource sorted m less bound = absurd (omega (arith, less, bound))
take-Memᴰ (suc n) start [] resource sorted m less bound = elim m [ ]
take-Memᴰ (suc n) start (first ∷ resources) resource sorted (Memᴰ.head e) less bound = Memᴰ.head e
take-Memᴰ (suc n) start (first ∷ resources) resource (below, sorted) (Memᴰ.tail m) less bound =
    Memᴰ.tail (
      take-Memᴰ n first.telemetry_pk resources resource sorted m
        (All-Memᴰ (λ (r : ResourceRow). first.telemetry_pk < r.telemetry_pk) resources below m)
        bound)

take_whole :
    (n : ℕ) (resources : List ResourceRow)
    → length (take n resources) < n
    → take n resources ≡ resources
take_whole zero resources h = absurd (omega (arith, h))
take_whole (suc n) [] h = refl
take_whole (suc n) (first ∷ resources) h =
    ap (λ (rest : List ResourceRow). first ∷ rest) (take_whole n resources (omega (arith, h)))

module _ (target : RetentionTarget) (cutoff : ℤ) (limit : ℕ) where
  -- The cursor is not past the last resource, and is at it where the loop is not stopped.
  clean_resources-last :
      (resources : List ResourceRow) (pass : Pass)
      → IsIncreasing resources
      → All (λ later. pass.next_resource_cursor < later.telemetry_pk) resources
      → ((clean_resources target cutoff limit resources pass).next_resource_cursor
          ≤ last_resource pass.next_resource_cursor resources)
        × ((clean_resources target cutoff limit resources pass).target_batch_filled ≡ false
            → (clean_resources target cutoff limit resources pass).next_resource_cursor
              ≡ last_resource pass.next_resource_cursor resources)
  unfolding clean_resources delete_resource_rows
  clean_resources-last [] pass sorted past = (omega arith, λ open_batch. refl)
  clean_resources-last (first ∷ resources) pass (below, sorted) (past, pasts) =
      let removed = delete_first limit (is_old target first.telemetry_pk cutoff) pass.rows in
      elim (Bool-cases (leb limit removed.1)) [
        | inl full ↦
            let le = last_resource-le first.telemetry_pk resources sorted below in
            rw (clean_resources, full) (omega (arith, le, past), λ open_batch. cc)
        | inr more ↦
            rw (clean_resources, more)
              (clean_resources-last resources
                (record {
                  rows = removed.0;
                  deleted = pass.deleted + removed.1;
                  next_resource_cursor = first.telemetry_pk;
                  completed_cutoff = cutoff;
                  target_batch_filled = pass.target_batch_filled;
                })
                sorted below)
      ]

last_resource-positive :
    (start : ℕ) (resources : List ResourceRow)
    → 0 < length resources
    → IsIncreasing resources
    → All (λ later. start < later.telemetry_pk) resources
    → start < last_resource start resources
last_resource-positive start [] h sorted past = absurd (omega (arith, h))
last_resource-positive start (first ∷ resources) h (below, sorted) (past, pasts) =
    let le = last_resource-le first.telemetry_pk resources sorted below in omega (arith, le, past)

-- A resource of the policy's workspace past the cursor of before has no row left that is older than the days
-- that the policy keeps, where the run's new cursor has passed it; and so has each of them where the new
-- cursor is 0, at which the next run begins again, and the run has removed fewer rows than the limit.
pub clean_telemetry_target-IsClean :
    (resources : List ResourceRow) (policy : RetentionPolicyRow) (target : RetentionTarget)
    (now resource_limit row_limit : ℕ) (state : TargetState) (resource : ResourceRow)
    → 0 < resource_limit
    → IsIncreasing resources
    → Memᴰ resource resources
    → resource.workspace_pk ≡ policy.workspace_pk
    → cursor_resource state.cursor < resource.telemetry_pk
    → (resource.telemetry_pk
        ≤ cursor_resource
            (clean_telemetry_target resources policy target now resource_limit row_limit
              state).0.cursor)
      ⊎ ((cursor_resource
              (clean_telemetry_target resources policy target now resource_limit row_limit
                state).0.cursor
            ≡ 0)
          × ((clean_telemetry_target resources policy target now resource_limit row_limit state).1
              < row_limit))
    → All
        (λ row. ¬ IsExpired policy target now resource row)
        (clean_telemetry_target resources policy target now resource_limit row_limit state).0.rows
unfolding clean_telemetry_target select_resources
clean_telemetry_target-IsClean resources policy target now resource_limit row_limit state resource
      some_limit sorted m ours ahead reached =
    let previous = cursor_resource state.cursor in
    let cutoff = cutoff_of policy target now in
    let test : ResourceRow → Bool = λ resource.
      (resource.workspace_pk == policy.workspace_pk) && ltb previous resource.telemetry_pk in
    let fresh = filter test resources in
    let selected = select_resources resources policy.workspace_pk previous resource_limit in
    let pass : Pass = record {
      rows = state.rows;
      deleted = 0;
      next_resource_cursor = previous;
      completed_cutoff = cursor_time state.cursor;
      target_batch_filled = false;
    } in
    let done = clean_resources target cutoff row_limit selected pass in
    let fresh-sorted : IsIncreasing fresh = filter-IsIncreasing test resources sorted in
    let in_order =
      select_resources-IsIncreasing resources policy.workspace_pk previous resource_limit sorted in
    let past = select_resources-past resources policy.workspace_pk previous resource_limit in
    let (last_le, last_eq) =
      clean_resources-last target cutoff row_limit selected pass in_order past in
    let there : Memᴰ resource fresh = Memᴰ-filter test resources m (ground (arith, ours, ahead)) in
    let finish : Memᴰ resource selected
        → (resource.telemetry_pk ≤ done.next_resource_cursor) ⊎ (done.target_batch_filled ≡ false)
        → All (λ row. ¬ IsExpired policy target now resource row) done.rows =
      (λ selected_one reached.
        All-mono {P = λ row. is_old target resource.telemetry_pk cutoff row ≡ false} done.rows
          (λ row young expired.
            let old = IsExpired-is_old policy target now resource row expired in cc (young, old))
          (clean_resources-cursor target cutoff row_limit selected pass resource in_order past
            selected_one reached)) in
    elim reached [
      | inr (wrapped, few) ↦
          let open_batch = clean_resources-filled target cutoff row_limit selected pass refl few in
          elim (Bool-cases (ltb (length selected) resource_limit)) [
            | inl short ↦
                let whole = take_whole resource_limit fresh (ground (arith, short)) in
                finish (rw whole there) (inr open_batch)
            | inr long ↦
                let end = rw (open_batch, long) at wrapped in
                let start =
                  last_resource-positive previous selected (ground (arith, long, some_limit))
                    in_order past in
                let at_last = last_eq open_batch in absurd (omega (arith, end, start, at_last))
          ]
      | inl le ↦
          elim (Bool-cases (not done.target_batch_filled && ltb (length selected) resource_limit)) [
            | inl is_wrapped ↦ let le' = rw is_wrapped at le in absurd (omega (arith, le', ahead))
            | inr on ↦
                let le' : resource.telemetry_pk ≤ done.next_resource_cursor = rw on at le in
                finish
                  (take-Memᴰ resource_limit previous fresh resource fresh-sorted there ahead
                    (omega (arith, le', last_le)))
                  (inl le')
          ]
    ]
