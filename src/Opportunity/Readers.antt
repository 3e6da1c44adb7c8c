-- ===== src/Opportunity/Readers.antt =====
-- Who may read the registrations of an opportunity: `list_registrations` and
-- `export_registrations`.
use campus_hr_b.Prelude.{
  ℕ, ◌≡◌, refl, ap, inl, inr, Option, none, some, Option-cases, List, arith, ◌==◌, if◌then◌else◌,
  Bool-cases, ◌&&◌, ◌||◌,
}
use campus_hr_b.Common.Enums.{
  CurrentUser, UserRole, student, coordinator, is_student, is_coordinator,
}
use campus_hr_b.Session.{Server, Session, Result, ok, err, http_exception, illegal_character_error}
use campus_hr_b.Table.{first, filter}
use campus_hr_b.Table.Count.{found_passes}
use campus_hr_b.Opportunity.Model.{Opportunity, Registration, Db, World, has_id, registered_for}
use campus_hr_b.Opportunity.Service.{Office, get_opportunity, export_sheet, generate_excel_export}
use campus_hr_b.Opportunity.Api.{list_registrations, export_registrations}

-- the answer that the file is, or the error where there is none
abbrev pub file_of : Option (List ℕ) → Result (List ℕ)
file_of none = err illegal_character_error
file_of (some bytes) = ok bytes

module _ (office : Office) (k : ℕ) (user : CurrentUser) (s : Server Db World) (opp : Opportunity)
    (found : first (has_id k) s.db.opportunities ≡ some opp) where
  abbrev rows : List Registration
  rows = filter (registered_for k) s.db.registrations

  rows_of_found : filter (registered_for opp.id) s.db.registrations ≡ rows
  rows_of_found =
      let same : opp.id ≡ k = ground (arith, found_passes (has_id k) s.db.opportunities found) in
      ap (λ i. filter (registered_for i) s.db.registrations) same

  abbrev session : Session Db World
  session = record { saved = s.db; work = s.db; world = s.world }

  exported :
      generate_excel_export office k session
      ≡ (file_of (office.save (export_sheet office rows)), session)
  unfolding generate_excel_export get_opportunity
  exported = rw found (elim (Option-cases (office.save (export_sheet office rows))) [
    | inl e ↦ rw e refl
    | inr (_, e) ↦ rw e refl
  ])

  list_case :
      (r : UserRole)
      → user.role ≡ r
      → list_registrations k user s ≡ (
          if is_student r || opp.coordinator_id == user.id
          then (ok rows, s)
          else (err (http_exception 403 "Not your opportunity"), s))
  unfolding list_registrations get_opportunity
  list_case student r = rw (r, found) (rw rows_of_found refl)
  list_case coordinator r = elim (Bool-cases (opp.coordinator_id == user.id)) [
    | inl own ↦ rw (r, found, own) (rw rows_of_found refl)
    | inr other ↦ rw (r, found, other) refl
  ]

  export_case :
      (r : UserRole)
      → user.role ≡ r
      → export_registrations office k user s ≡ (
          if is_coordinator r && opp.coordinator_id == user.id
          then (file_of (office.save (export_sheet office rows)), s)
          else (err (http_exception 403 "Coordinator only"), s))
  unfolding export_registrations get_opportunity
  export_case student r = rw (r, found) refl
  export_case coordinator r = elim (Bool-cases (opp.coordinator_id == user.id)) [
    | inl own ↦ rw (r, found, own, exported) refl
    | inr other ↦ rw (r, found, other) refl
  ]

  -- The registrations of an opportunity that is there are listed for its coordinator and for every
  -- student, all of them with what the students wrote; another coordinator is refused. The export
  -- of the same rows is for the opportunity's coordinator alone, and fails where openpyxl does not
  -- take a text of them. Neither changes anything.
  pub registrations_readers :
      (list_registrations k user s ≡ (
        if is_student user.role || opp.coordinator_id == user.id
        then (ok rows, s)
        else (err (http_exception 403 "Not your opportunity"), s)))
      × (export_registrations office k user s ≡ (
          if is_coordinator user.role && opp.coordinator_id == user.id
          then (file_of (office.save (export_sheet office rows)), s)
          else (err (http_exception 403 "Coordinator only"), s)))
  registrations_readers = (list_case user.role refl, export_case user.role refl)
