-- ===== src/Application/Submission.antt =====
-- What a student's application promises, and what it does not: `create_application` and
-- `withdraw_application` as their callers see them.
use campus_hr_b.Prelude.{
  ℕ, ◌≡◌, ◌≢◌, refl, inl, inr, none, some, [], ◌∷◌, ◌++◌, arith, Bool-cases, ◌∙◌, sym, ap,
}
use campus_hr_b.Json.{Json, text, entry, end}
use campus_hr_b.Common.Uuid.{to_text}
use campus_hr_b.Common.Enums.{CurrentUser, student}
use campus_hr_b.Events.{Broker, application_submitted}
use campus_hr_b.Http.{HttpClient, Settings, reply}
use campus_hr_b.Session.{Server, ok}
use campus_hr_b.Table.{first}
use campus_hr_b.Table.Count.{count, found_passes, count_zero_of_missing}
use campus_hr_b.Table.Rows.{first-update_where_self, first-update_where_other}
use campus_hr_b.Application.Model.{Application, ApplicationCreate, Db, Stamp, has_id, applied_by}
use campus_hr_b.Application.Service.{
  new_application, registration_stage, submitted, opportunity_url,
}
use campus_hr_b.Application.Api.{create_application, withdraw_application}
use campus_hr_b.Application.Effects.{other_key}
use campus_hr_b.Application.Apply.{create_application_cases, submits}
use campus_hr_b.Application.Withdraw.{withdraw_cases}

module _ (http_get : HttpClient) (settings : Settings) (app_row stage_row log_row : Stamp)
    (user : CurrentUser) (request : ApplicationCreate) (s : Server Db Broker) where
  submits_success :
      (made app : Application) (t : Server Db Broker)
      → submits http_get settings app_row stage_row log_row user request s made ≡ (ok app, t)
      → (made ≡ app)
        × (t.db.applications ≡ s.db.applications ++ app ∷ [])
        × (t.db.stages ≡ s.db.stages ++ registration_stage stage_row app.id ∷ [])
        × (t.world.sent ≡ s.world.sent ++ submitted app user.id ∷ [])
  submits_success made app t h = elim (Bool-cases s.world.connected) [
    | inl up ↦
        let h' = rw up at h in
        let same : made ≡ app = cc in
        (
          same,
          ap (λ p. p.1.db.applications) (sym h') ∙ ap (λ a. s.db.applications ++ a ∷ []) same,
          ap (λ p. p.1.db.stages) (sym h')
              ∙ ap (λ a. s.db.stages ++ registration_stage stage_row a.id ∷ []) same,
          ap (λ p. p.1.world.sent) (sym h')
              ∙ ap (λ a. s.world.sent ++ submitted a user.id ∷ []) same,
        )
    | inr down ↦ cc (rw down at h)
  ]

  pub submits_applications :
      (made : Application)
      → (submits http_get settings app_row stage_row log_row user request s made).1.db.applications
        ≡ s.db.applications ++ made ∷ []
  submits_applications made = elim (Bool-cases s.world.connected) [
    | inl up ↦ rw up
    | inr down ↦ rw down
  ]

  -- An application that is answered with success was made by a student, of an opportunity that the
  -- opportunity service answered 200 for, to which that student had no application. It is that
  -- student's, with what was asked and the status "Applied", and is the one new row of its table;
  -- the stages gain one, its open stage "Registration", and the exchange gains the event
  -- application_submitted, which names the application, the student and the opportunity.
  pub create_application_success :
      (app : Application) (t : Server Db Broker)
      → create_application http_get settings app_row stage_row log_row user request s ≡ (ok app, t)
      → (user.role ≡ student)
        × ((body : Json) × (http_get (opportunity_url settings request.opportunity_id)
              ≡ reply 200 (some body)))
        × (count (applied_by request.opportunity_id user.id) s.db.applications ≡ 0)
        × ((profile : Json) × (app ≡ record {
          id = app_row.id;
          opportunity_id = request.opportunity_id;
          student_id = user.id;
          status = "Applied";
          resume_url = request.resume_url;
          profile_snapshot = some profile;
          overrides = some request.overrides;
          created_at = app_row.now;
        }))
        × (t.db.applications ≡ s.db.applications ++ app ∷ [])
        × (t.db.stages
            ≡ s.db.stages
              ++ record {
                id = stage_row.id;
                application_id = app.id;
                stage_name = "Registration";
                entered_at = stage_row.now;
                exited_at = none;
                actor_id = none;
              }
                ∷ [])
        × (t.world.sent
            ≡ s.world.sent
              ++ record {
                event_type = application_submitted;
                payload = entry "application_id" (text (to_text app.id)) (
                    entry "student_id"
                      (text (to_text user.id))
                      (entry "opportunity_id" (text (to_text app.opportunity_id)) end));
                actor_id = some user.id;
                correlation_id = none;
              }
                ∷ [])
  unfolding new_application registration_stage submitted
  create_application_success app t h =
      elim (create_application_cases http_get settings app_row stage_row log_row user request s) [
        | inl refused ↦ cc refused.0.1
        | inr (body, profile, r, url, new, done) ↦
            let (same, apps, stages, sent) =
              submits_success (new_application app_row user.id request profile) app t
                (sym done ∙ h) in
            (
              r,
              (body, url),
              count_zero_of_missing _ s.db.applications new,
              (profile, sym same),
              apps,
              stages,
              sent,
            )
      ]

module _ (row : Stamp) (k : ℕ) (user : CurrentUser) (s : Server Db Broker) where
  -- A withdrawal that is answered with success was asked for by the student whose application it
  -- is. That application is then "Withdrawn", and no other application, no stage and no message
  -- has changed: its workflow stage stays open, and nobody is told.
  pub withdraw_application_success :
      (app : Application) (t : Server Db Broker)
      → withdraw_application row k user s ≡ (ok app, t)
      → (user.role ≡ student)
        × (app.student_id ≡ user.id)
        × (app.status ≡ "Withdrawn")
        × (first (has_id k) t.db.applications ≡ some app)
        × ((j : ℕ)
            → j ≢ k
            → first (has_id j) t.db.applications ≡ first (has_id j) s.db.applications)
        × (t.db.stages ≡ s.db.stages)
        × (t.world ≡ s.world)
  withdraw_application_success app t h = elim (withdraw_cases row k user s) [
    | inl refused ↦ cc refused.0.1
    | inr (old, r, e, own, done) ↦
        let h' = sym done ∙ h in
        let same : record old { status = "Withdrawn" } ≡ app = cc in
        let key : old.id ≡ k = ground (arith, found_passes (has_id k) s.db.applications e) in
        let rows = ap (λ p. p.1.db.applications) (sym h') in
        (
          r,
          ap (λ a. a.student_id) (sym same) ∙ own,
          ap (λ a. a.status) (sym same),
          rw rows (
              rw key (
                first-update_where_self (has_id k) (λ a. record a { status = "Withdrawn" })
                  s.db.applications (λ a. refl) e
                ∙ ap some same)),
          λ j ne. rw rows (
              rw key (
                first-update_where_other (has_id j) (has_id k)
                  (λ a. record a { status = "Withdrawn" }) s.db.applications
                  (λ a q. (other_key j k a.id ne q, other_key j k a.id ne q)))),
          ap (λ p. p.1.db.stages) (sym h'),
          ap (λ p. p.1.world) (sym h'),
        )
  ]
