-- ===== src/Opportunity/Creating.antt =====
-- `create_opp`: who creates an opportunity, and what is written.
use campus_hr_b.Prelude.{ℕ, ◌≡◌, refl, ◌⊎◌, inl, inr, Bool, true, [], ◌∷◌, ◌++◌, ◌&&◌, Bool-cases}
use campus_hr_b.Common.Enums.{CurrentUser, UserRole, student, coordinator}
use campus_hr_b.Session.{Server, ok, http_exception, data_error, Refused}
use campus_hr_b.Opportunity.Model.{
  Opportunity, OpportunityCreate, Stamp, Db, World, opportunity_fits, fields_fit, rules_fit,
}
use campus_hr_b.Opportunity.Service.{create_opportunity, new_opportunity, new_fields, new_rules}
use campus_hr_b.Opportunity.Api.{create_opp}

module _ (row : Stamp) (field_ids rule_ids : ℕ → ℕ) (request : OpportunityCreate)
    (user : CurrentUser) (s : Server Db World) where
  abbrev pub created : Opportunity
  created = new_opportunity row user.id request

  abbrev pub after_create : Server Db World
  after_create = record s {
    db = record s.db {
      opportunities = s.db.opportunities ++ created ∷ [];
      form_fields = s.db.form_fields ++ new_fields field_ids created.id 0 request.form_fields;
      eligibility_rules =
          s.db.eligibility_rules ++ new_rules rule_ids created.id 0 request.eligibility_rules;
    };
  }

  abbrev pub all_fit : Bool
  all_fit =
      opportunity_fits created
      && (fields_fit (new_fields field_ids created.id 0 request.form_fields)
          && rules_fit request.eligibility_rules)

  -- A coordinator's request whose columns fit is answered with success.
  pub create_opp_made :
      user.role ≡ coordinator
      → all_fit ≡ true
      → create_opp row field_ids rule_ids request user s ≡ (ok created, after_create)
  unfolding create_opp create_opportunity
  create_opp_made r fit = rw (r, fit) refl

  -- The route refuses and changes nothing, or a coordinator creates an opportunity whose columns
  -- fit.
  pub create_opp_cases :
      Refused (create_opp row field_ids rule_ids request user s) s
      ⊎ ((user.role ≡ coordinator)
          × (all_fit ≡ true)
          × (create_opp row field_ids rule_ids request user s ≡ (ok created, after_create)))
  unfolding create_opp create_opportunity
  create_opp_cases = role_case user.role refl
    where
      role_case :
          (r : UserRole)
          → user.role ≡ r
          → Refused (create_opp row field_ids rule_ids request user s) s
            ⊎ ((user.role ≡ coordinator)
                × (all_fit ≡ true)
                × (create_opp row field_ids rule_ids request user s ≡ (ok created, after_create)))
      role_case student r = inl (rw r ((http_exception 403 "Coordinator only", refl), refl))
      role_case coordinator r = elim (Bool-cases all_fit) [
        | inl fit ↦ inr (r, fit, create_opp_made r fit)
        | inr long ↦ inl (rw (r, long) ((data_error, refl), refl))
      ]
