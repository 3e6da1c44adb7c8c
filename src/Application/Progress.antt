-- ===== src/Application/Progress.antt =====
-- What a change of status by a coordinator does: `patch_status` as its callers see it.
use campus_hr_b.Prelude.{
  ℕ, String, ◌≡◌, ◌≢◌, ◌≤◌, refl, inl, inr, true, false, Option, none, some, List, [], ◌∷◌, ◌++◌,
  arith, ◌==◌, ◌&&◌, Bool-cases, Option-cases, ◌∙◌, sym, ap,
}
use mathlib.Core.List.{append-nil}
use campus_hr_b.Common.Enums.{
  ApplicationStatus, CurrentUser, coordinator, shortlisted, rejected, application_status_value,
}
use campus_hr_b.Events.{
  Broker, DomainEvent, EventType, application_shortlisted, application_rejected,
}
use campus_hr_b.Session.{Server, ok}
use campus_hr_b.Table.{first, filter}
use campus_hr_b.Table.Count.{count, found_passes, count_pos_of_found, count_zero_of_missing}
use campus_hr_b.Table.Rows.{
  first-update_where_self, first-update_where_other, first-append_one, count-update_where_found,
  filter-update_where_found, filter-append_one_not,
}
use campus_hr_b.Application.Model.{
  Application, WorkflowStage, Db, Stamp, StatusUpdate, has_id, is_stage, open_stage_of, stage_of,
}
use campus_hr_b.Application.Service.{ended, status_stage, status_event, event_of_status}
use campus_hr_b.Application.Api.{patch_status}
use campus_hr_b.Application.Invariant.{IsValid}
use campus_hr_b.Application.Effects.{other_key, key_refl}
use campus_hr_b.Application.Status.{patch_status_cases, announces, moved_db}

-- the messages that the student is owed
abbrev pub told : ApplicationStatus → Application → ℕ → List DomainEvent
told shortlisted app actor = status_event application_shortlisted app actor ∷ []
told rejected app actor = status_event application_rejected app actor ∷ []
told _ app actor = []

open_row : (k : ℕ) → ((k == k) && true) ≡ true
open_row k = ground arith

stage_foreign :
    (k : ℕ) (stage : WorkflowStage) (j : ℕ)
    → j ≢ k
    → open_stage_of k stage ≡ true
    → stage_of j stage ≡ false
stage_foreign k stage j ne h = ground arith

messages : Option EventType → Application → ℕ → List DomainEvent
messages none app actor = []
messages (some e) app actor = status_event e app actor ∷ []

told-eq-messages :
    (status : ApplicationStatus) (app : Application) (actor : ℕ) {o : Option EventType}
    → event_of_status status ≡ o
    → told status app actor ≡ messages o app actor
unfolding event_of_status messages
told-eq-messages shortlisted app actor q = rw (← q)
told-eq-messages rejected app actor q = rw (← q)
told-eq-messages _ app actor q = rw (← q)

-- the messages do not tell the status
told_same :
    (status : ApplicationStatus) (app : Application) (actor : ℕ) (x : String)
    → told status app actor ≡ told status (record app { status = x }) actor
unfolding status_event
told_same shortlisted app actor x = refl
told_same rejected app actor x = refl
told_same _ app actor x = refl

module _ (db : Db) (valid : IsValid db) (k : ℕ) {app : Application}
    (found : first (has_id k) db.applications ≡ some app) (now : ℕ) where
  abbrev stages_left : List WorkflowStage
  stages_left = ended (first (open_stage_of k) db.stages) now db.stages

  open_one : 1 ≤ count (open_stage_of k) db.stages
  open_one = omega (
    arith,
    valid.one_open_stage k,
    count_pos_of_found (has_id k) (has_id k) db.applications found
        (found_passes (has_id k) db.applications found),
  )

  -- an application that exists has an open stage
  pub open_found : (stage : WorkflowStage) × (first (open_stage_of k) db.stages ≡ some stage)
  open_found = elim (Option-cases (first (open_stage_of k) db.stages)) [
    | inl e ↦ absurd (omega (arith, open_one, count_zero_of_missing (open_stage_of k) db.stages e))
    | inr found' ↦ found'
  ]

  none_left : count (open_stage_of k) stages_left ≡ 0
  none_left =
      let (stage, e) = open_found in
      rw e (
        ground (
          arith,
          count-update_where_found (open_stage_of k) (open_stage_of k) (is_stage stage.id)
              (λ s. record s { exited_at = some now }) db.stages (valid.one_stage_row stage.id) e
              (key_refl stage.id),
          found_passes (open_stage_of k) db.stages e,
          valid.one_open_stage k,
          valid.one_row k,
        ))

  -- the stage that is added is then the open one
  pub open_next :
      (next : WorkflowStage)
      → open_stage_of k next ≡ true
      → first (open_stage_of k) (stages_left ++ next ∷ []) ≡ some next
  open_next next h = ground (arith, first-append_one (open_stage_of k) stages_left next, none_left)

  -- the stages of another application stay
  pub others_stay :
      (next : WorkflowStage) (j : ℕ)
      → next.application_id ≡ k
      → j ≢ k
      → filter (stage_of j) (stages_left ++ next ∷ []) ≡ filter (stage_of j) db.stages
  others_stay next j own ne =
      let (stage, e) = open_found in
      rw (filter-append_one_not (stage_of j) stages_left next (ground arith)) (
        rw e (
          filter-update_where_found (stage_of j) (open_stage_of k) (is_stage stage.id)
            (λ s. record s { exited_at = some now }) db.stages (valid.one_stage_row stage.id) e
            (key_refl stage.id)
            (stage_foreign k stage j ne (found_passes (open_stage_of k) db.stages e))
            (stage_foreign k stage j ne (found_passes (open_stage_of k) db.stages e))))

module _ (stage_row log_row : Stamp) (now k : ℕ) (request : StatusUpdate) (user : CurrentUser)
    (s : Server Db Broker) where
  announces_success :
      (o : Option EventType) (old app : Application) (t : Server Db Broker)
      → event_of_status request.status ≡ o
      → announces stage_row log_row now k request user s o old ≡ (ok app, t)
      → (record old { status = application_status_value request.status } ≡ app)
        × (t.db ≡ moved_db stage_row log_row now k request user s old)
        × (t.world.sent ≡ s.world.sent ++ told request.status old user.id)
  unfolding messages
  announces_success none old app t q h = (
    cc,
    cc,
    rw (told-eq-messages request.status old user.id q)
        (ap (λ p. p.1.world.sent) (sym h) ∙ sym (append-nil s.world.sent)),
  )
  announces_success (some e) old app t q h = elim (Bool-cases s.world.connected) [
    | inl up ↦
        let h' = rw up at h in
        (
          cc,
          cc,
          rw (told-eq-messages request.status old user.id q) (ap (λ p. p.1.world.sent) (sym h')),
        )
    | inr down ↦ cc (rw down at h)
  ]

  -- In a well-formed database, a change of status that is answered with success was asked for by a
  -- coordinator, for an application that exists. It then has the status asked for, and its one open
  -- stage bears that status; the exchange has the messages that the student is owed, one if the
  -- status is shortlisted or rejected and none otherwise. Other applications and the stages of
  -- others are as before.
  pub patch_status_success :
      (app : Application) (t : Server Db Broker)
      → IsValid s.db
      → patch_status stage_row log_row now k request user s ≡ (ok app, t)
      → (user.role ≡ coordinator)
        × (app.id ≡ k)
        × (app.status ≡ application_status_value request.status)
        × (first (has_id k) t.db.applications ≡ some app)
        × (first (open_stage_of k) t.db.stages ≡ some (status_stage stage_row k app.status user.id))
        × (t.world.sent ≡ s.world.sent ++ told request.status app user.id)
        × ((j : ℕ)
            → j ≢ k
            → (first (has_id j) t.db.applications ≡ first (has_id j) s.db.applications)
              × (filter (stage_of j) t.db.stages ≡ filter (stage_of j) s.db.stages))
  unfolding status_stage
  patch_status_success app t valid h =
      elim (patch_status_cases stage_row log_row now k request user s) [
        | inl refused ↦ cc refused.0.1
        | inr (old, r, e, done) ↦
            let status = application_status_value request.status in
            let (same, db, sent) =
              announces_success (event_of_status request.status) old app t refl (sym done ∙ h) in
            let key : old.id ≡ k = ground (arith, found_passes (has_id k) s.db.applications e) in
            let own : app.id ≡ k = ap (λ a. a.id) (sym same) ∙ key in
            let says : app.status ≡ status = ap (λ a. a.status) (sym same) in
            (
              r,
              own,
              says,
              rw db (
                  rw key (
                    first-update_where_self (has_id k) (λ a. record a { status = status })
                      s.db.applications (λ a. refl) e
                    ∙ ap some same)),
              rw db (
                  rw (key, says)
                    (open_next s.db valid k e now (status_stage stage_row k status user.id)
                      (open_row k))),
              sent
                  ∙ ap (λ m. s.world.sent ++ m)
                      (told_same request.status old user.id status
                        ∙ ap (λ a. told request.status a user.id) same),
              λ j ne. (
                rw db (
                    rw key (
                      first-update_where_other (has_id j) (has_id k)
                        (λ a. record a { status = status }) s.db.applications
                        (λ a q. (other_key j k a.id ne q, other_key j k a.id ne q)))),
                rw db (
                    rw key (
                      others_stay s.db valid k e now (status_stage stage_row k status user.id) j
                        refl ne)),
              ),
            )
      ]
