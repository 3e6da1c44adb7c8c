-- ===== src/Application/Apply.antt =====
-- `create_application`: when an application is made, and what is written and published.
use campus_hr_b.Prelude.{
  ◌≡◌, refl, ◌⊎◌, inl, inr, none, some, [], ◌∷◌, ◌++◌, arith, ◌==◌, if◌then◌else◌, Bool-cases,
  Option-cases,
}
use campus_hr_b.Json.{Json, text, obj, entry, end}
use campus_hr_b.Common.Enums.{CurrentUser, UserRole, student, coordinator}
use campus_hr_b.Events.{Broker, publish}
use campus_hr_b.Http.{HttpClient, Settings, Reply, failed, reply}
use campus_hr_b.Session.{
  Server, Session, Result, ok, err, Error, http_exception, client_error, runtime_error, Refused,
}
use campus_hr_b.Table.{first}
use campus_hr_b.Application.Model.{Application, ApplicationCreate, AuditLog, Db, Stamp, applied_by}
use campus_hr_b.Application.Service.{
  apply, fetch_opportunity, opportunity_of, opportunity_url, fetch_profile, profile_of, profile_url,
  new_application, registration_stage, submitted, add_application, add_stage, log_audit,
}
use campus_hr_b.Application.Api.{create_application}
use campus_hr_b.Application.Effects.{with_application, with_stage, with_log}

-- what a GET of an opportunity gives: its body, or the call raises
opportunity_of_cases :
    (r : Reply) (s : Session Db Broker)
    → ((body : Json) × (r ≡ reply 200 (some body)) × (opportunity_of r s ≡ (ok body, s)))
      ⊎ ((e : Error) × (opportunity_of r s ≡ (err e, s)))
unfolding opportunity_of
opportunity_of_cases failed s = inr (client_error, refl)
opportunity_of_cases (reply status none) s = elim (Bool-cases (status == 200)) [
  | inl good ↦ inr (client_error, rw good)
  | inr bad ↦ inr (http_exception 404 "Opportunity not found", rw bad)
]
opportunity_of_cases (reply status (some body)) s = elim (Bool-cases (status == 200)) [
  | inl good ↦ inl (body, ground arith, rw good)
  | inr bad ↦ inr (http_exception 404 "Opportunity not found", rw bad)
]

profile_of_cases :
    (r : Reply) (s : Session Db Broker)
    → ((profile : Json) × (profile_of r s ≡ (ok profile, s)))
      ⊎ ((e : Error) × (profile_of r s ≡ (err e, s)))
unfolding profile_of
profile_of_cases failed s = inr (client_error, refl)
profile_of_cases (reply status none) s = elim (Bool-cases (status == 200)) [
  | inl good ↦ inr (client_error, rw good)
  | inr bad ↦ inl (obj end, rw bad)
]
profile_of_cases (reply status (some body)) s = elim (Bool-cases (status == 200)) [
  | inl good ↦ inl (body, rw good)
  | inr bad ↦ inl (obj end, rw bad)
]

-- the entry that a new application adds to the audit log
abbrev pub created_log : Stamp → Application → AuditLog
created_log row app = record {
  id = row.id;
  application_id = app.id;
  entity = "application";
  action = "created";
  payload = some (entry "status" (text app.status) end);
  created_at = row.now;
}

module _ (http_get : HttpClient) (settings : Settings) (app_row stage_row log_row : Stamp)
    (user : CurrentUser) (request : ApplicationCreate) (s : Server Db Broker) where
  -- the database after an application has been made
  abbrev pub applied_db : Application → Db
  applied_db app =
      with_log (created_log log_row app)
        (with_stage (registration_stage stage_row app.id) (with_application app s.db))

  -- the commit stands also where the publisher then raises
  abbrev pub submits : Application → Result Application × Server Db Broker
  submits app =
      if s.world.connected
      then (
        ok app,
        record {
          db = applied_db app;
          world = record s.world { sent = s.world.sent ++ submitted app user.id ∷ [] };
        },
      )
      else (
        err (runtime_error "EventPublisher not connected"),
        record { db = applied_db app; world = s.world },
      )

  abbrev answer : Result Application × Server Db Broker
  answer = create_application http_get settings app_row stage_row log_row user request s

  abbrev pub Applies : Type 0
  Applies =
      (body profile : Json) × (user.role ≡ student)
      × (http_get (opportunity_url settings request.opportunity_id) ≡ reply 200 (some body))
      × (first (applied_by request.opportunity_id user.id) s.db.applications ≡ none)
      × (answer ≡ submits (new_application app_row user.id request profile))

  abbrev session : Session Db Broker
  session = record { saved = s.db; work = s.db; world = s.world }

  -- nobody has applied yet, and the profile is asked for
  new_case :
      {body : Json}
      → user.role ≡ student
      → http_get (opportunity_url settings request.opportunity_id) ≡ reply 200 (some body)
      → opportunity_of (http_get (opportunity_url settings request.opportunity_id)) session
        ≡ (ok body, session)
      → first (applied_by request.opportunity_id user.id) s.db.applications ≡ none
      → Refused answer s ⊎ Applies
  unfolding create_application apply fetch_opportunity fetch_profile add_application add_stage
      log_audit publish
  new_case {body} r url good e =
      elim (profile_of_cases (http_get (profile_url settings user.id)) session) [
        | inl (profile, p) ↦ elim (Bool-cases s.world.connected) [
          | inl up ↦ inr (body, profile, r, url, e, rw (r, good, e, p, up))
          | inr down ↦ inr (body, profile, r, url, e, rw (r, good, e, p, down))
        ]
        | inr (x, p) ↦ inl (rw (r, good, e, p) ((x, refl), refl))
      ]

  found_case : user.role ≡ student → Refused answer s ⊎ Applies
  unfolding create_application apply fetch_opportunity
  found_case r =
      elim (opportunity_of_cases (http_get (opportunity_url settings request.opportunity_id))
        session) [
          | inl (body, url, good) ↦
              elim (Option-cases
                (first (applied_by request.opportunity_id user.id) s.db.applications)) [
                  | inl e ↦ new_case r url good e
                  | inr (app, e) ↦
                      inl (rw (r, good, e) ((http_exception 400 "Already applied", refl), refl))
                ]
          | inr (x, bad) ↦ inl (rw (r, bad) ((x, refl), refl))
        ]

  -- The route refuses and changes nothing, or a student applies for the first time.
  pub create_application_cases : Refused answer s ⊎ Applies
  unfolding create_application
  create_application_cases = role_case user.role refl
    where
      role_case : (r : UserRole) → user.role ≡ r → Refused answer s ⊎ Applies
      role_case student r = found_case r
      role_case coordinator r = inl (rw r ((http_exception 403 "Student only", refl), refl))
