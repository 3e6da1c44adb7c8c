-- ===== src/Opportunity/Scheduler.antt =====
-- The scheduler that the start of services/opportunity-service/app/main.py sets up: a run of
-- `process_deadlines` each minute. Times are in microseconds.
use campus_hr_b.Prelude.{ℕ, zero, suc, ◌+◌, ◌*◌, ◌≡◌, ◌≢◌, String, Option}
use campus_hr_b.Json.{ℤ}
use campus_hr_b.Common.Enums.{CurrentUser}
use campus_hr_b.Http.{HttpClient, Settings}
use campus_hr_b.Session.{Server, ok}
use campus_hr_b.Table.Count.{count}
use campus_hr_b.Opportunity.Model.{
  OpportunityCreate, OpportunityUpdate, RegistrationCreate, Stamp, Db, World, has_id,
}
use campus_hr_b.Opportunity.Service.{Office}
use campus_hr_b.Opportunity.Api.{create_opp, patch_opp, create_registration, run_deadlines}

-- `"interval", minutes=1`
abbrev pub interval : ℕ
interval = 60000000

-- when the job has its n-th run, if the scheduler has started at a time
abbrev pub run_time : ℕ → ℕ → ℕ
run_time start n = start + n * interval

-- What the service has served since its start, with the number of the job's runs: requests, but for
-- changes of the opportunity k, and the runs in their turn. A row that is added has a key of its
-- own (uuid4), and no run has raised an error.
pub data Timeline (office : Office) (start k : ℕ) (s : Server Db World)
    : ℕ → Server Db World → Type 0 where
  started : Timeline office start k s zero s
  creates :
      {n : ℕ} {t : Server Db World}
      → Timeline office start k s n t
      → (row : Stamp) (field_ids rule_ids : ℕ → ℕ) (request : OpportunityCreate)
        (user : CurrentUser)
      → count (has_id row.id) t.db.opportunities ≡ 0
      → Timeline office start k s n (create_opp row field_ids rule_ids request user t).1
  patches :
      {n : ℕ} {t : Server Db World}
      → Timeline office start k s n t
      → (j : ℕ) (request : OpportunityUpdate) (user : CurrentUser) → j ≢ k
      → Timeline office start k s n (patch_opp j request user t).1
  registers :
      {n : ℕ} {t : Server Db World}
      → Timeline office start k s n t
      → (http_get : HttpClient) (settings : Settings) (parse_float : String → Option ℤ)
        (row : Stamp) (j : ℕ) (request : RegistrationCreate) (user : CurrentUser)
      → Timeline office start k s n
          (create_registration http_get settings parse_float row j request user t).1
  runs :
      {n : ℕ} {t : Server Db World}
      → Timeline office start k s n t
      → (run_deadlines office (run_time start (suc n)) t).0 ≡ ok tt
      → Timeline office start k s (suc n) (run_deadlines office (run_time start (suc n)) t).1
