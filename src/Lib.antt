-- ===== src/Lib.antt =====
-- The AKIRA Ops backend: checklists that the staff of restaurant outlets work through every day, who
-- may do what in an organisation, and the scores that come of it.
--
-- The parts. A request first finds out who calls (app/core/deps.py): the token's subject is looked
-- up in a cache of a minute or in the database, and gates decide whether the caller gets in. The
-- caller's role and outlets then fence every query and every write. On the floor, a day's runs are
-- made from the assignments by a job, a member of staff starts a run, answers its items, uploads
-- photos and submits it (app/domains/sop/runs_service.py), and a manager approves it or sends it
-- back (app/domains/sop/review_router.py); passes in the background flag photos and runs that look
-- wrong, whatever has become of the run by then. Items that fail raise exceptions, which a board takes to
-- an end. A job marks the runs that nobody began as missed (app/jobs/tasks.py).
--
-- The files.
--   Prelude             shared names; Tests (Booleans), Lists (rows of tables), Keys (primary
--                       keys), Results (errors)
--   Core/Enums          app/core/enums.py
--   Core/Float          Python's floats, as an interface with the laws of IEEE 754 that are used
--   Core/Scoring        app/core/scoring.py; Bounds on its scores
--   Core/Access         the caller and the guards of app/core/deps.py; Fence on tenants
--   Core/Identity       `current_user` and its cache, in app/core/deps.py; Cache, History (the
--                       cache over any calls), Defs, Gates
--   Core/BusinessDate   app/core/business_date.py; Rollover
--   Core/ActorToken     app/core/actor.py
--   Core/Hardening      the rate limiter of app/core/hardening.py; Fair
--   Users/Permissions   app/domains/users/permissions.py; Escalation
--   Users/Store         the tables of people; Users/Repository the statements on them, from
--                       app/domains/users/repository.py
--   Users/Admin         app/domains/users/admin_service.py; Moves, Ranks, Owners
--   Sop/Store           the tables; Sop/Status tests on statuses
--   Sop/Floor           `FloorActor` and `resolve_actor` of app/domains/sop/runs_service.py
--   Sop/Integrity       the checks of a run in app/domains/sop/integrity.py
--   Sop/Background      the passes after a photo or a submit, there and in app/domains/sop/ai_review.py
--   Sop/Materialise     `materialise_runs` of app/domains/sop/runs_service.py; Loop, Once
--   Sop/Runs            from start to submit, app/domains/sop/runs_service.py; Defs, Submit
--   Sop/Review          `approve_run` and `reject_run` of app/domains/sop/review_router.py
--   Sop/Exceptions      the board, app/domains/sop/review_router.py
--   Sop/Sweep           `sweep_overdue` of app/jobs/tasks.py; Once
--   Sop/Authoring       app/domains/sop/service.py: Tables, Patches, Rows, Service; Edits are any calls
--                       in sequence and Effects what they do, from which Kept (over Current, Bump,
--                       Items) and History follow; Assignments of app/domains/sop/router.py,
--                       Apart
--   Sop/Lifecycle       all these as steps on the database; Rows, Effects, Passes, Orderly, Steps,
--                       Final, Complete, Answers, Notes, Board
--   Inventory/Requisition   app/domains/inventory/requisition.py
--   Inventory/Requisitions  app/domains/inventory/requisitions_service.py; Final
--   Inventory/Normalise     app/domains/inventory/normalize.py; Honest
--   Inventory/Mapping       app/domains/inventory/mapping.py
--   Inventory/Counts        app/domains/inventory/counts_service.py: Tables, Service, Extract, Background;
--                           Signed over Reviewed
--   Jobs/Runner         app/jobs/runner.py
--   Training            app/domains/training/service.py: Attempts, Service; Turns are any calls in
--                       sequence, Sound what they keep, Mandate who still has to take the tour
--                       (over Done)
--   Tests, in a folder: test data, and examples of the theorems
--
-- People are administered by people above them (app/domains/users/admin_service.py): they are
-- invited, changed, given roles, outlets and PINs, and each change that matters to access drops the
-- cached identity.
-- A stock count is photographed, read in the background by an extraction service, reviewed line by
-- line and signed off (app/domains/inventory/counts_service.py, run by app/jobs/runner.py); from it a
-- requisition is computed, edited and made final (app/domains/inventory/requisitions_service.py).
-- Checklists are written as templates whose items are kept version by version, so that a run shows
-- what it was made from (app/domains/sop/service.py), and are assigned to outlets, from where the
-- runs of a day are made. Everybody walks through a tour of the app, and may be asked to do so again
-- (app/domains/training/service.py).
--
-- The model. The database is a record of tables, each a list of rows; a handler takes it and
-- returns it, or an error, and one that raises leaves it as it was, since its transaction is
-- rolled back. `update ... where` is `update_where`, `.first()` of a select is `find`, `order by`
-- and `sorted` are `sort_by`. Ids are natural numbers, and Postgres' fresh ids are counted.
-- Instants count seconds, or microseconds where the code compares them so finely (the cache, the
-- token); dates are ordinals. Loops go over lists, so no fuel is needed.
--
-- From outside, as parameters: the arithmetic of floats, time zones, the encoding and the keyed
-- digest of a tablet's token, the sizes that storage reports, what a photo measures, whether one
-- like it is stored, what the vision model answers, the row that the identity query returns, the
-- logins of Supabase, what the extraction service reads off a sheet, and what Python knows of
-- Unicode.
--
-- Not modelled: consumption of stock, sales, settings, and everything that reads or writes the
-- network or images. A handler is one step, and so is each part of a background pass that commits
-- on its own: what another transaction may do between the statements of a handler is modelled for
-- the sweep alone.
pub mod Prelude
pub mod Core
pub mod Users
pub mod Sop
pub mod Inventory
pub mod Training
pub mod Jobs
