-- ===== src/Registry/Contracts/Projects.antt =====
-- The loop over the projects: what it counts, and what has passed.
use vinuchain_lists.Prelude.{
  ℕ, ◌+◌, ◌≤◌, ◌≡◌, refl, ap, subst, inl, inr, true, Option, none, some, List, [], ◌∷◌, map, codes,
  Text, All, All-map, length, ltb, arith, Bool-cases, Outcome-cases, Outcome, ok, threw,
}
use vinuchain_lists.Json.{lookup}
use vinuchain_lists.FilePath.{join}
use vinuchain_lists.SafeJson.{safe_read_json}
use vinuchain_lists.Url.{validate_urls}
use vinuchain_lists.Email.{validate_email}
use vinuchain_lists.Registry.{State, Rejection, one_error, no_errors}
use vinuchain_lists.Registry.Complete.{
  Counted, count_seq, one_error-Counted, no_errors-Counted, threw-injective,
}
use vinuchain_lists.Registry.Contracts.{
  ContractData, ProjectData, Repository, project_url_fields, check_contact, project_schema,
  check_ceiling, project_path_of, check_project, count_project, after_project, project_loop,
  project_dirs, after_project_listing, validate_contracts, max_projects, max_contracts_per_project,
}
use vinuchain_lists.Registry.Contracts.Complete.{
  Grows, Grows-trans, Passed, Passed-mono, loop-Grows, loop_clean,
}

project_schema-Counted : (o : Outcome ℕ ProjectData) → Counted (project_schema o)
unfolding project_schema
project_schema-Counted (ok a) e h = cc h
project_schema-Counted (threw n) e h =
    let same : ◌≡◌ {A = Rejection} (record { error_count = 1 + n; warning_count = 0 }) e =
      threw-injective h in
    subst (λ n. 1 ≤ n) (ap (λ x. x.error_count) same) (omega arith)

check_ceiling-Counted : (w : ℕ) (cs : List ContractData) → Counted (check_ceiling w cs)
unfolding check_ceiling
check_ceiling-Counted w cs e h = elim (Bool-cases (ltb max_contracts_per_project (length cs))) [
  | inr within ↦ cc (rw within at h)
  | inl over ↦
      let same : ◌≡◌ {A = Rejection} (record { error_count = 1; warning_count = w }) e =
        threw-injective (rw over at h) in
      subst (λ n. 1 ≤ n) (ap (λ x. x.error_count) same) (omega arith)
]

check_contact-Counted : (o : Option Text) → Counted (check_contact o)
unfolding check_contact
check_contact-Counted none e h = cc h
check_contact-Counted (some []) e h = cc h
check_contact-Counted (some (c ∷ t)) e h =
    count_seq (one_error 0 (validate_email (c ∷ t))) _ h
      (one_error-Counted 0 (validate_email (c ∷ t))) (λ ws never. cc never)

module _ (q : Repository) where
  check_project-Counted : (slug : Text) → Counted (check_project q slug)
  unfolding check_project
  check_project-Counted slug e h =
      count_seq
        (one_error 0 (
          safe_read_json q.setting.parse q.setting.fs
            (join (project_path_of q slug) (codes "info.json" ∷ []))))
        _ h (one_error-Counted 0 _)
        (λ value h₁.
          count_seq (project_schema (q.check_project_schema value)) _ h₁
            (project_schema-Counted (q.check_project_schema value))
            (λ project h₂.
              count_seq
                (no_errors (
                  validate_urls q.setting.parse_url
                    (map (λ k. lookup k project.members) project_url_fields)))
                _ h₂ (no_errors-Counted _)
                (λ u h₃.
                  count_seq (check_contact project.contact) _ h₃
                    (check_contact-Counted project.contact)
                    (λ mail h₄.
                      count_seq (check_ceiling mail project.contracts) _ h₄
                        (check_ceiling-Counted mail project.contracts) (λ v never. cc never)))))

  -- The project passed, with each of its contracts.
  abbrev pub PassedProject : State → Text → Type 0
  PassedProject s slug =
      (project : ProjectData) × (w : ℕ) × (check_project q slug ≡ ok (project, w))
      × All (Passed q.setting s (project_path_of q slug)) project.contracts

  project_step :
      (s : State) (projects contracts : ℕ) (slug : Text)
      → Grows s ((after_project q s projects contracts slug (check_project q slug)).0)
        × (((after_project q s projects contracts slug (check_project q slug)).0).errors ≤ s.errors
            → ((after_project q s projects contracts slug (check_project q slug)).1 ≡ projects + 1)
              × PassedProject
                  ((after_project q s projects contracts slug (check_project q slug)).0)
                  slug)
  unfolding after_project count_project
  project_step s projects contracts slug = elim (Outcome-cases (check_project q slug)) [
    | inr (e, bad) ↦
        let one = check_project-Counted slug e bad in
        rw bad ((omega arith, refl, λ k h. h), λ h. absurd (omega (arith, one, h)))
    | inl ((project, w), fine) ↦
        let warned : State = record s { warnings = s.warnings + w } in
        rw fine (
          loop-Grows q.setting warned slug (project_path_of q slug) project.contracts contracts
              true,
          λ h.
              let (_, valid, passed) =
                loop_clean q.setting warned slug (project_path_of q slug) project.contracts
                  contracts h in
              (rw valid refl, (project, w, refl, passed)),
        )
  ]

  PassedProject-mono :
      (s t : State) (slug : Text) → Grows s t → PassedProject s slug → PassedProject t slug
  PassedProject-mono s t slug g (project, w, fine, passed) = (
    project,
    w,
    fine,
    All-map (λ c. Passed-mono q.setting s t (project_path_of q slug) c g) project.contracts passed,
  )

  projects_grow :
      (s : State) (projects contracts : ℕ) (slugs : List Text)
      → Grows s ((project_loop q s projects contracts slugs).0)
  unfolding project_loop
  projects_grow s projects contracts [] = (omega arith, refl, λ k h. h)
  projects_grow s projects contracts (slug ∷ slugs) =
      let next = after_project q s projects contracts slug (check_project q slug) in
      Grows-trans s (next.0) ((project_loop q (next.0) (next.1) (next.2) slugs).0)
        ((project_step s projects contracts slug).0)
        (projects_grow (next.0) (next.1) (next.2) slugs)

  projects_clean :
      (s : State) (projects contracts : ℕ) (slugs : List Text)
      → ((project_loop q s projects contracts slugs).0).errors ≤ s.errors
      → ((project_loop q s projects contracts slugs).1 ≡ projects + length slugs)
        × All (PassedProject ((project_loop q s projects contracts slugs).0)) slugs
  unfolding project_loop
  projects_clean s projects contracts [] h = (omega arith, tt)
  projects_clean s projects contracts (slug ∷ slugs) h =
      let next = after_project q s projects contracts slug (check_project q slug) in
      let (first, clean) = project_step s projects contracts slug in
      let rest = projects_grow (next.0) (next.1) (next.2) slugs in
      let (one, passed) = clean (omega (arith, rest.0, h)) in
      let (total, all_passed) =
        projects_clean (next.0) (next.1) (next.2) slugs (omega (arith, first.0, h)) in
      (
        omega (arith, total, one),
        (
          PassedProject-mono (next.0) ((project_loop q (next.0) (next.1) (next.2) slugs).0) slug
              rest passed,
          all_passed,
        ),
      )

  some_result : {a b : State × ℕ × ℕ} → ◌≡◌ {A = Option (State × ℕ × ℕ)} (some a) (some b) → a ≡ b
  some_result h = cc h

  -- If the contracts' directory is there and lists `entries`, and the loop ends without a new error, then
  -- every directory among them is a project that has passed with each of its contracts, and the first
  -- number of the result is theirs, which is within the ceiling; tokens stay as they were.
  pub validate_contracts-clean :
      (s next : State) (projects contracts : ℕ) (entries : List Text)
      → q.setting.fs.exists q.contracts_dir ≡ true
      → q.setting.fs.read_dir q.contracts_dir ≡ ok entries
      → validate_contracts q s ≡ some (next, projects, contracts)
      → next.errors ≤ s.errors
      → (projects ≡ length (project_dirs q entries))
        × (projects ≤ max_projects)
        × All (PassedProject next) (project_dirs q entries)
        × Grows s next
  unfolding validate_contracts after_project_listing
  validate_contracts-clean s next projects contracts entries there listed h same =
      let dirs = project_dirs q entries in
      let h₁ : after_project_listing q s dirs ≡ some (next, projects, contracts) =
        rw (there, listed) at h in
      elim (Bool-cases (ltb max_projects (length dirs))) [
        | inl over ↦ cc (rw (after_project_listing, over) at h₁)
        | inr within ↦
            let made : project_loop q s 0 0 dirs ≡ (next, projects, contracts) =
              some_result (rw (after_project_listing, within) at h₁) in
            let end_state : (project_loop q s 0 0 dirs).0 ≡ next = ap (λ x. x.0) made in
            let (total, passed) =
              projects_clean s 0 0 dirs (omega (arith, same, ap (λ x. x.errors) end_state)) in
            let count = ap (λ x. x.1) made in
            (
              omega (arith, total, count),
              ground (arith, within, total, count),
              subst (λ t. All (PassedProject t) dirs) end_state passed,
              subst (Grows s) end_state (projects_grow s 0 0 dirs),
            )
      ]
