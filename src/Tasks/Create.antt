-- ===== src/Tasks/Create.antt =====
-- wrc_task_create of lib/wrc-tasks.c takes the first unused task.
use wrpc_sw.Prelude.{
  ℕ, suc, ◌+◌, ◌≡◌, refl, ap, ◌∙◌, ◌⊎◌, inl, inr, true, false, Option, none, some, List, [], ◌∷◌,
  ◌++◌, length, if◌then◌else◌, arith, Bool-cases,
}
use wrpc_sw.Tasks.{Ran, Task, at, fill_task, free_place, wrc_task_create}

module _ {W : Type 0} where
  abbrev pub AllUsed : List (Task W) → Type 0
  AllUsed [] = Unit
  AllUsed (t ∷ ts) = (t.used ≡ true) × AllUsed ts

  -- The first unused task, with what is before and behind it.
  pub record Free (ts : List (Task W)) : Type 0 where
    pub before : List (Task W)
    pub task : Task W
    pub after : List (Task W)
    pub parts : ts ≡ before ++ (task ∷ after)
    pub used_before : AllUsed before
    pub unused : task.used ≡ false

  free_place-cases :
      (i : ℕ) (ts : List (Task W))
      → ((free_place i ts ≡ none) × AllUsed ts)
        ⊎ ((f : Free ts) × (free_place i ts ≡ some (i + length f.before)))
  unfolding free_place
  free_place-cases i [] = inl (refl, _)
  free_place-cases i (t ∷ ts) = elim (Bool-cases t.used) [
    | inr e ↦
        let z : i ≡ i + 0 = omega arith in
        inr (
          record { before = []; task = t; after = ts; parts = refl; used_before = _; unused = e },
          ap (λ u. if u then free_place (suc i) ts else some i) e ∙ ap (λ k. some k) z,
        )
    | inl e ↦
        let skip = ap (λ u. if u then free_place (suc i) ts else some i) e in
        elim (free_place-cases (suc i) ts) [
          | inl (n, a) ↦ inl (skip ∙ n, (e, a))
          | inr (f, p) ↦
              let z : suc i + length f.before ≡ i + suc (length f.before) = omega arith in
              inr (
                record {
                  before = t ∷ f.before;
                  task = f.task;
                  after = f.after;
                  parts = ap (λ l. t ∷ l) f.parts;
                  used_before = (e, f.used_before);
                  unused = f.unused;
                },
                skip ∙ p ∙ ap (λ k. some k) z,
              )
        ]
  ]

  at-length :
      (before : List (Task W)) (t : Task W) (after : List (Task W)) (f : Task W → Task W)
      → at (length before) f (before ++ (t ∷ after)) ≡ before ++ (f t ∷ after)
  at-length [] t after f = refl
  at-length (b ∷ before) t after f = ap (λ l. b ∷ l) (at-length before t after f)

  -- The first unused task is filled in and its place returned, and the other tasks stay as they are. If
  -- there is no unused task, none is returned and nothing changes.
  pub wrc_task_create_lem :
      (name : List ℕ) (init : Option (W → W)) (job : Option (W → Ran W)) (ts : List (Task W))
      → ((wrc_task_create name init job ts ≡ (none, ts)) × AllUsed ts)
        ⊎ ((f : Free ts) × (wrc_task_create name init job ts
              ≡ (some (length f.before), f.before ++ (fill_task name init job f.task ∷ f.after))))
  unfolding wrc_task_create
  wrc_task_create_lem name init job ts = elim (free_place-cases 0 ts) [
    | inl (e, a) ↦ inl (rw (wrc_task_create, e) refl, a)
    | inr (f, e) ↦
        let z : 0 + length f.before ≡ length f.before = omega arith in
        inr (
          f,
          rw (wrc_task_create, e, z)
              (ap (λ l. (some (length f.before), at (length f.before) (fill_task name init job) l))
                  f.parts
                ∙ ap (λ l. (some (length f.before), l))
                    (at-length f.before f.task f.after (fill_task name init job))),
        )
  ]
