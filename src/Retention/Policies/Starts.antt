-- ===== src/Retention/Policies/Starts.antt =====
-- `loadRetentionPolicyBatch` of workers/retention/src/index.ts: the cursor at which a run begins.
use mathlib.Core.List.{Memᴰ}
use mathlib.Core.List.Memᴰ
use alphaping.Prelude.{
  ℕ, ◌≤◌, ◌<◌, ◌≡◌, refl, ap, Bool, true, Bool-cases, inl, inr, ltb, List, [], ◌∷◌, arith, ◌≢◌,
  false, ◌∙◌, sym, Option, none, some, String,
}
use alphaping.Retention.Policies.{RetentionRun, is_complete, later_run, latest_run, previous_cursor}

-- An earlier run that completed without an error.
pub record IsCompleted (run_id : ℕ) (run : RetentionRun) : Type 0 where
  pub earlier : run.run_id < run_id
  pub ended : run.completed_at ≢ none
  pub well : run.error_code ≡ none

-- The cursor at which a run begins: that of the latest completed run, and 0 where there is none.
pub data StartsAt (runs : List RetentionRun) (run_id cursor : ℕ) : Type 0 where
  first_run :
      ((run : RetentionRun) → Memᴰ run runs → ¬ IsCompleted run_id run)
      → cursor ≡ 0
      → StartsAt runs run_id cursor
  after_run :
      (last : RetentionRun)
      → Memᴰ last runs
      → IsCompleted run_id last
      → ((run : RetentionRun) → Memᴰ run runs → IsCompleted run_id run → run.run_id ≤ last.run_id)
      → cursor ≡ last.workspace_cursor
      → StartsAt runs run_id cursor

is_complete-IsCompleted :
    (run_id : ℕ) (run : RetentionRun) → is_complete run_id run ≡ true → IsCompleted run_id run
is_complete-IsCompleted run_id run e = record {
  earlier = ground (arith, e);
  ended = λ never. let e' = rw never at e in ground (arith, e');
  well = error_of run.error_code refl;
}
  where
    error_of : (error : Option String) → run.error_code ≡ error → run.error_code ≡ none
    error_of none h = h
    error_of (some code) h = absurd (let e' = rw h at e in ground (arith, e'))

IsCompleted-is_complete :
    (run_id : ℕ) (run : RetentionRun) → IsCompleted run_id run → is_complete run_id run ≡ true
IsCompleted-is_complete run_id run completed = by_end run.completed_at refl
  where
    by_end : (end : Option ℕ) → run.completed_at ≡ end → is_complete run_id run ≡ true
    by_end none h = absurd (completed.ended h)
    by_end (some time) h =
        let earlier = completed.earlier in
        let well = completed.well in rw (h, well) (ground (arith, earlier))

-- What the latest run of those that a test picks is.
IsLatest : (RetentionRun → Bool) → List RetentionRun → Option RetentionRun → Type 0
IsLatest test runs none = (run : RetentionRun) → Memᴰ run runs → test run ≡ false
IsLatest test runs (some last) =
    Memᴰ last runs
    × (test last ≡ true)
    × ((run : RetentionRun) → Memᴰ run runs → test run ≡ true → run.run_id ≤ last.run_id)

later_run-IsLatest :
    (test : RetentionRun → Bool) (run : RetentionRun) (runs : List RetentionRun)
    (rest : Option RetentionRun)
    → IsLatest test runs rest
    → IsLatest test (run ∷ runs) (later_run test run rest)
unfolding IsLatest
later_run-IsLatest test run runs none others = elim (Bool-cases (test run)) [
  | inl picked ↦ rw picked (
    Memᴰ.head refl,
    picked,
    λ other m h. elim (Memᴰ.cases_cons m) [
      | inl same ↦ rw same (omega arith)
      | inr there ↦ cc (others other there, h)
    ],
  )
  | inr passed_over ↦ rw passed_over (λ other m. elim (Memᴰ.cases_cons m) [
    | inl same ↦ rw same passed_over
    | inr there ↦ others other there
  ])
]
later_run-IsLatest test run runs (some last) (m_last, picked_last, others) =
    elim (Bool-cases (test run)) [
      | inr passed_over ↦ rw passed_over (
        Memᴰ.tail m_last,
        picked_last,
        λ other m h. elim (Memᴰ.cases_cons m) [
          | inl same ↦ cc (rw same at h, passed_over)
          | inr there ↦ others other there h
        ],
      )
      | inl picked ↦ elim (Bool-cases (ltb run.run_id last.run_id)) [
        | inl before ↦
            rw (picked, before)
              (
                Memᴰ.tail m_last,
                picked_last,
                λ other m h. elim (Memᴰ.cases_cons m) [
                  | inl same ↦ rw same (ground (arith, before))
                  | inr there ↦ others other there h
                ],
              )
        | inr after ↦
            rw (picked, after)
              (
                Memᴰ.head refl,
                picked,
                λ other m h. elim (Memᴰ.cases_cons m) [
                  | inl same ↦ rw same (omega arith)
                  | inr there ↦ let le = others other there h in ground (arith, after, le)
                ],
              )
      ]
    ]

latest_run-IsLatest :
    (test : RetentionRun → Bool) (runs : List RetentionRun)
    → IsLatest test runs (latest_run test runs)
unfolding latest_run IsLatest
latest_run-IsLatest test [] = λ run m. elim m [ ]
latest_run-IsLatest test (run ∷ runs) =
    later_run-IsLatest test run runs (latest_run test runs) (latest_run-IsLatest test runs)

pub previous_cursor-eq :
    (runs : List RetentionRun) (run_id cursor : ℕ)
    → ((a b : RetentionRun) → Memᴰ a runs → Memᴰ b runs → a.run_id ≡ b.run_id → a ≡ b)
    → StartsAt runs run_id cursor
    → previous_cursor runs run_id ≡ cursor
unfolding previous_cursor IsLatest
previous_cursor-eq runs run_id cursor keys starts =
    by_latest (latest_run (is_complete run_id) runs) refl
      (latest_run-IsLatest (is_complete run_id) runs) starts
  where
    by_latest :
        (found : Option RetentionRun)
        → latest_run (is_complete run_id) runs ≡ found
        → IsLatest (is_complete run_id) runs found
        → StartsAt runs run_id cursor
        → previous_cursor runs run_id ≡ cursor
    by_latest none h nothing (StartsAt.first_run none_completed at) =
        rw (previous_cursor, h, at) refl
    by_latest none h nothing (StartsAt.after_run last m completed others at) =
        cc (nothing last m, IsCompleted-is_complete run_id last completed)
    by_latest (some run) h (m, picked, most) (StartsAt.first_run none_completed at) =
        absurd (none_completed run m (is_complete-IsCompleted run_id run picked))
    by_latest (some run) h (m, picked, most) (StartsAt.after_run last m' completed others at) =
        let le = others run m (is_complete-IsCompleted run_id run picked) in
        let ge = most last m' (IsCompleted-is_complete run_id last completed) in
        let same = keys run last m m' (omega (arith, le, ge)) in
        let cursors = ap (λ (r : RetentionRun). r.workspace_cursor) same in
        rw (previous_cursor, h) (cursors ∙ sym at)
