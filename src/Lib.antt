-- ===== src/Lib.antt =====
-- CampusHire: the back end of a campus hiring platform, four FastAPI services over one database
-- each, with a message exchange between them. This library models the services' own code and
-- proves what their routes and event handlers do.
--
-- Parts and files.
-- - Session: the unit of work of a request (database.py of each service). A handler is a
--   function from a session to a result and a session; what it has committed stays, and closing
--   the session drops the rest. Errors are values, with the status code and the detail of an
--   HTTPException.
-- - Table, with Count, Rows, Order and Every: the queries that the services make of a table, as
--   functions on the list of its rows, in the order in which the database answers them where no
--   order is asked for (a new row is put last), and what is true of them.
-- - Json: the values of dict columns and payloads. Common: enums.py and auth_deps.py (AuthDeps)
--   of shared/campushire-common, the text of a UUID (Uuid) and the Authorization header
--   (Bearer). Events: shared/campushire-events. Http: the GETs between services.
-- - Storage: shared/campushire-storage. FilePath is what it uses of texts and of pathlib,
--   Backends is backends.py over a Host, which stands for the disk and for Azure; Saving is what
--   is relied on in a disk, Suffix, Slashes and Names are about the names of files and of URLs.
-- - Application: services/application-service/app. Model is models.py and schemas.py, Service is
--   services/application_service.py, Api is api/applications.py, one function for each there,
--   under the same name. Apply, Withdraw and Status say what the three routes that write can do;
--   Audit reads a status from the audit log; Invariant, Effects, Arrival and Requests are about
--   every sequence of requests, Lasting about an application among them; Submission, Progress
--   and Listing are the routes as their callers see them. Files is the upload of a resume and
--   the route of main.py that serves files, and Uploads what a student's upload stores.
-- - Communications: services/communications-service/app in the same way. Consumer is
--   handle_domain_event with run_consumer of main.py and the loop of the consumer in broker.py;
--   Queue is that loop over any messages, Responses the response models of queries, and
--   Delivery, Desk and Inbox are events, queries and notifications as users see them.
-- - System: an event from the application service to the communications service, and in Relay
--   all that any sequence of requests has published.
-- - Opportunity: services/opportunity-service/app in the same way. Eligibility is
--   check_eligibility, and Rules what it decides on the rules that a coordinator can write.
--   Creating lists all answers of create_opp and Registering those of create_registration, and
--   Admission is the route as a student sees it; Ownership is patch_opp and Readers the listing
--   and the export; Deadlines is process_deadlines of main.py, Scheduler its runs and Closing
--   what they do in time; Responses are the response models of opportunities, and Publishing
--   what they show of a new one; Files is as in Application; Requests is about every sequence of
--   requests and of the scheduler's runs, and Lasting about a registration among them.
-- - Identity: services/identity-service/app in the same way. The libraries of Model stand for
--   python-jose, passlib and Redis. Joining is register with Responses, Sessions is login,
--   Refreshing and Rotation refresh, and Signout logout, each with what validate or a later
--   request then answers (Lasting for refresh); Gateway compares validate with get_current_user;
--   Schema is what is asked of PostgreSQL's tables and types, Migration is
--   alembic/versions/001_initial.py and Metadata the tables of models.py, and Migrating and
--   Labels compare them. Invariant, Revoking, Profiles and Requests are about every sequence of
--   requests; what they rely on in a library is a hypothesis there.
-- - Scripts: scripts. Seeds is seed-coordinator.py and seed-dev-data.py, and Seeding what they
--   leave in auth_db.
-- - Tests: runs at concrete inputs.
--
-- Modelling. A UUID is a number, and its text is that of str(uuid). A time is a number, in
-- microseconds where the identity service computes with it; there one reading of the clock
-- serves a request. The uuid4 and the now() of a row that is added are parameters, its stamp; a
-- statement that needs a fresh key says so. The user whom get_current_user gives is a parameter
-- of each route. What an HTTP GET answers is a function from URLs to answers. Requests are
-- served one after another; that two sessions interleave is not modelled. Where a relationship
-- of the models names no order, the order is a function of the database that keeps each row
-- (select). The opportunity service refuses what its columns do not take: a text that is too
-- long or has a NUL, a number of more than 32 bits; in the other services the columns are taken
-- to be wide enough. No fuel is used: every definition is a structural recursion or has none.
--
-- Not modelled: gateway and deployment, logging, and the libraries (FastAPI, SQLAlchemy,
-- aio_pika, httpx).
pub mod Application
pub mod Common
pub mod Communications
pub mod Events
pub mod Http
pub mod Identity
pub mod Json
pub mod Opportunity
pub mod Prelude
pub mod Results
pub mod Scripts
pub mod Session
pub mod Storage
pub mod System
pub mod Table
pub mod Tests
