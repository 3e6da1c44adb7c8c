-- ===== src/Application/Listing.antt =====
-- The routes that read: `list_applications`, `get_application` and `timeline`.
use campus_hr_b.Prelude.{
  ℕ, ◌≡◌, refl, inl, inr, Bool, true, some, List, arith, ◌==◌, ◌&&◌, not, if◌then◌else◌, Bool-cases,
  Option-cases, ◌∙◌,
}
use campus_hr_b.Common.Enums.{CurrentUser, student, is_student}
use campus_hr_b.Events.{Broker}
use campus_hr_b.Session.{Server, Result, ok}
use campus_hr_b.Table.{first, filter, order_by_desc}
use campus_hr_b.Table.Count.{count, found_passes}
use campus_hr_b.Table.Order.{
  IsNewestFirst, order_by_desc-IsNewestFirst, count-order_by_desc, count-filter,
}
use campus_hr_b.Application.Model.{Application, TimelineResponse, Db, has_id, stage_of}
use campus_hr_b.Application.Api.{
  list_applications, visible_to, get_application, timeline, visible_application,
}

-- whom the list shows an application to
abbrev pub may_see : CurrentUser → Application → Bool
may_see user app = if is_student user.role then app.student_id == user.id else true

module _ (user : CurrentUser) (s : Server Db Broker) where
  count-visible_to :
      (p : Application → Bool) (apps : List Application)
      → count p (visible_to user apps) ≡ count (λ a. may_see user a && p a) apps
  unfolding visible_to
  count-visible_to p apps = elim (Bool-cases (is_student user.role)) [
    | inl learner ↦ rw learner (count-filter (λ a. a.student_id == user.id) p apps)
    | inr staff ↦ rw staff refl
  ]

  -- The list is answered without a change, newest first, and shows each application that the user
  -- may see as often as the table holds it, and no other: a student's own, and all to the rest.
  pub list_applications_visible :
      (rows : List Application) × (list_applications user s ≡ (ok rows, s))
      × IsNewestFirst (λ app. app.created_at) rows
      × ((p : Application → Bool)
          → count p rows ≡ count (λ a. may_see user a && p a) s.db.applications)
  unfolding list_applications
  list_applications_visible =
      let visible = visible_to user s.db.applications in
      (
        order_by_desc (λ app. app.created_at) visible,
        refl,
        order_by_desc-IsNewestFirst (λ app. app.created_at) visible,
        λ p.
            count-order_by_desc (λ app. app.created_at) p visible
            ∙ count-visible_to p s.db.applications,
      )

  -- what the guards that both routes share let through
  visible_application_cases :
      (k : ℕ) (app : Application) (t : Server Db Broker)
      → get_application k user s ≡ (ok app, t)
      → (t ≡ s)
        × (first (has_id k) s.db.applications ≡ some app)
        × (user.role ≡ student → app.student_id ≡ user.id)
  unfolding get_application visible_application
  visible_application_cases k app t h = elim (Option-cases (first (has_id k) s.db.applications)) [
    | inl e ↦ cc (rw e at h)
    | inr (row, e) ↦ elim (Bool-cases (is_student user.role && not (row.student_id == user.id))) [
      | inl foreign ↦ cc (rw (e, foreign) at h)
      | inr own ↦
          let h' : ◌≡◌ {A = Result Application × Server Db Broker} (ok row, s) (ok app, t) =
            rw (e, own) at h in
          (cc, cc, λ r. ground arith)
    ]
  ]

  timeline-get_application :
      (k : ℕ) (answer : TimelineResponse) (t : Server Db Broker)
      → timeline k user s ≡ (ok answer, t)
      → (get_application k user s ≡ (ok answer.application, t))
        × (answer.stages ≡ filter (stage_of answer.application.id) s.db.stages)
  unfolding get_application timeline visible_application
  timeline-get_application k answer t h = ground arith

  -- A student who is shown the timeline of an application is its owner. The timeline shows the
  -- application of the key asked for and all its stages, and the database stays as it was.
  pub timeline_shows :
      (k : ℕ) (answer : TimelineResponse) (t : Server Db Broker)
      → timeline k user s ≡ (ok answer, t)
      → (t ≡ s)
        × (answer.application.id ≡ k)
        × (first (has_id k) s.db.applications ≡ some answer.application)
        × (answer.stages ≡ filter (stage_of k) s.db.stages)
        × (user.role ≡ student → answer.application.student_id ≡ user.id)
  timeline_shows k answer t h =
      let (got, stages) = timeline-get_application k answer t h in
      let (same, found, own) = visible_application_cases k answer.application t got in
      let key : answer.application.id ≡ k =
        ground (arith, found_passes (has_id k) s.db.applications found) in
      (same, key, found, rw (← key) stages, own)
