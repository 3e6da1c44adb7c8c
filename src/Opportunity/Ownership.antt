-- ===== src/Opportunity/Ownership.antt =====
-- `patch_opp`: who may change an opportunity, and what the change is.
use campus_hr_b.Prelude.{
  ℕ, ◌≡◌, refl, ap, sym, ◌∙◌, ◌⊎◌, inl, inr, Option, none, some, String, arith, ◌==◌, Bool-cases,
  Option-cases,
}
use campus_hr_b.Common.Enums.{CurrentUser, UserRole, student, coordinator}
use campus_hr_b.Session.{Server, ok, http_exception, integrity_error, data_error, Refused}
use campus_hr_b.Table.{first, update_where}
use campus_hr_b.Opportunity.Model.{
  opportunity_fits, Opportunity, OpportunityUpdate, Change, unset, set_to, Db, World, has_id,
}
use campus_hr_b.Opportunity.Service.{
  updated, update_opportunity, get_opportunity, replace_opportunity, changed, changed_to,
  updated_texts,
}
use campus_hr_b.Opportunity.Api.{patch_opp}

-- a field of the new row: what the request sets, or what the old row has
abbrev pub Keeps : {A : Type 0} → Change A → A → A → Type 0
Keeps unset old new = new ≡ old
Keeps (set_to a) old new = new ≡ a

abbrev pub KeepsText : Change (Option String) → String → String → Type 0
KeepsText unset old new = new ≡ old
KeepsText (set_to a) old new = a ≡ some new

updated_row :
    (request : OpportunityUpdate) (opp new : Opportunity) (title status : Option String)
    → updated_texts request opp title status ≡ some new
    → (title ≡ some new.title)
      × (status ≡ some new.status)
      × (new ≡ record opp {
        title = new.title;
        description = changed request.description opp.description;
        deadline = changed request.deadline opp.deadline;
        status = new.status;
      })
updated_row request opp new none status h = cc
updated_row request opp new (some title) none h = cc
updated_row request opp new (some title) (some status) h =
    let same = value_of h in
    (
      ap (λ o. some o.title) same,
      ap (λ o. some o.status) same,
      sym same
          ∙ ap
              (λ o. record opp {
                title = o.title;
                description = changed request.description opp.description;
                deadline = changed request.deadline opp.deadline;
                status = o.status;
              })
              same,
    )
  where
    value_of : {a b : Opportunity} → some a ≡ some b → a ≡ b
    value_of q = cc q

field_kept : {A : Type 0} (c : Change A) (old new : A) → new ≡ changed c old → Keeps c old new
field_kept unset old new h = h
field_kept (set_to a) old new h = h

text_kept :
    (c : Change (Option String)) (old new : String)
    → changed_to c old ≡ some new
    → KeepsText c old new
text_kept unset old new h = cc
text_kept (set_to a) old new h = h

pub updated_fields :
    (request : OpportunityUpdate) (opp new : Opportunity)
    → updated request opp ≡ some new
    → (new.id ≡ opp.id)
      × (new.coordinator_id ≡ opp.coordinator_id)
      × (new.created_at ≡ opp.created_at)
      × KeepsText request.title opp.title new.title
      × Keeps request.description opp.description new.description
      × Keeps request.deadline opp.deadline new.deadline
      × KeepsText request.status opp.status new.status
unfolding updated
updated_fields request opp new h =
    let (title, status, row) =
      updated_row request opp new (changed_to request.title opp.title)
        (changed_to request.status opp.status) h in
    (
      ap (λ o. o.id) row,
      ap (λ o. o.coordinator_id) row,
      ap (λ o. o.created_at) row,
      text_kept request.title opp.title new.title title,
      field_kept request.description opp.description new.description (ap (λ o. o.description) row),
      field_kept request.deadline opp.deadline new.deadline (ap (λ o. o.deadline) row),
      text_kept request.status opp.status new.status status,
    )

module _ (k : ℕ) (request : OpportunityUpdate) (user : CurrentUser) (s : Server Db World) where
  abbrev pub Patches : Type 0
  Patches =
      (opp new : Opportunity) × (user.role ≡ coordinator)
      × (first (has_id k) s.db.opportunities ≡ some opp)
      × (opp.coordinator_id ≡ user.id)
      × (updated request opp ≡ some new)
      × (patch_opp k request user s ≡ (
        ok new,
        record s {
          db = record s.db {
            opportunities = update_where (has_id opp.id) (λ old. new) s.db.opportunities;
          };
        },
      ))

  found_case :
      {opp : Opportunity}
      → user.role ≡ coordinator
      → first (has_id k) s.db.opportunities ≡ some opp
      → Refused (patch_opp k request user s) s ⊎ Patches
  unfolding patch_opp update_opportunity get_opportunity replace_opportunity
  found_case {opp} r e = elim (Bool-cases (opp.coordinator_id == user.id)) [
    | inr other ↦ inl (rw (r, e, other) ((http_exception 403 "Not your opportunity", refl), refl))
    | inl own ↦ elim (Option-cases (updated request opp)) [
      | inl bad ↦ inl (rw (r, e, own, bad) ((integrity_error, refl), refl))
      | inr (new, good) ↦ elim (Bool-cases (opportunity_fits new)) [
        | inl fit ↦ inr (opp, new, r, e, ground arith, good, rw (r, e, own, good, fit) refl)
        | inr long ↦ inl (rw (r, e, own, good, long) ((data_error, refl), refl))
      ]
    ]
  ]

  -- The route refuses and changes nothing, or the owner changes the opportunity.
  pub patch_opp_cases : Refused (patch_opp k request user s) s ⊎ Patches
  unfolding patch_opp update_opportunity get_opportunity
  patch_opp_cases = role_case user.role refl
    where
      role_case : (r : UserRole) → user.role ≡ r → Refused (patch_opp k request user s) s ⊎ Patches
      role_case student r = inl (rw r ((http_exception 403 "Coordinator only", refl), refl))
      role_case coordinator r = elim (Option-cases (first (has_id k) s.db.opportunities)) [
        | inl e ↦ inl (rw (r, e) ((http_exception 404 "Opportunity not found", refl), refl))
        | inr (opp, e) ↦ found_case r e
      ]

  -- A change that is answered with success was asked for by the coordinator who made the
  -- opportunity. The row that is answered replaces that opportunity and nothing else changes: each
  -- field is what the request sets, or what it was; the key, the owner and the time of creation
  -- stay; neither the title nor the status becomes null.
  pub patch_opp_success :
      (new : Opportunity) (t : Server Db World)
      → patch_opp k request user s ≡ (ok new, t)
      → (opp : Opportunity) × (user.role ≡ coordinator)
        × (first (has_id k) s.db.opportunities ≡ some opp)
        × (opp.coordinator_id ≡ user.id)
        × (new.id ≡ opp.id)
        × (new.coordinator_id ≡ opp.coordinator_id)
        × (new.created_at ≡ opp.created_at)
        × KeepsText request.title opp.title new.title
        × Keeps request.description opp.description new.description
        × Keeps request.deadline opp.deadline new.deadline
        × KeepsText request.status opp.status new.status
        × (t.db ≡ record s.db {
          opportunities = update_where (has_id opp.id) (λ old. new) s.db.opportunities;
        })
  patch_opp_success new t h = elim patch_opp_cases [
    | inl refused ↦ cc refused.0.1
    | inr (opp, new', r, e, own, good, done) ↦
        let made = sym done ∙ h in
        let same = value_of (ap (λ z. z.0) made) in
        let (i, c, at, title, description, deadline, status) =
          updated_fields request opp new (good ∙ ap some same) in
        (
          opp,
          r,
          e,
          own,
          i,
          c,
          at,
          title,
          description,
          deadline,
          status,
          ap (λ z. z.1.db) (sym made)
              ∙ ap
                  (λ o. record s.db {
                    opportunities = update_where (has_id opp.id) (λ old. o) s.db.opportunities;
                  })
                  same,
        )
  ]
    where
      value_of : {a b : Opportunity} → ok a ≡ ok b → a ≡ b
      value_of q = cc q
