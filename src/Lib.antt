-- ===== src/Lib.antt =====
-- CampusOps: the incident server and the parts of its web client that decide something.
--
-- An incident is reported, passes a chain of validators, is built by a factory with its SLA policy,
-- is assigned to a staff member whom the department's strategy picks, and then lives in a state
-- machine that every action goes through; events tell observers what happened. In front of it stand
-- the sign-in, the middleware that authenticates a request, the controllers, and the handler that
-- turns an error into a response; behind it the repositories with a cache, the queue of escalation
-- jobs with its worker, and the channels that notices take. Beside it stand panic alerts, chats and
-- campus alerts, whose controllers write to the database and emit to rooms of sockets; a client joins
-- rooms when it connects and by the messages that it sends.
--
--   Errors            src/domain/errors/index.js: the typed errors, and what else is thrown
--   User, User/Shift  src/domain/entities/User.js: roles, rooms, shifts, availability
--   Sla               src/domain/entities/SLAPolicy.js: deadlines and breaches
--   Incident          src/domain/entities/Incident.js; Incident/States: src/domain/states, one
--                     function for each method of a state class; Incident/Names: getName, and the
--                     STATE_MAP of src/infrastructure/repositories/IncidentRepository.js
--   Factory           src/domain/factories/IncidentFactory.js: a new incident from a request body
--   Repository        src/infrastructure/repositories/IncidentRepository.js: rows, toEntity,
--                     toDocument, findById and save; Repository/Listing: findMany;
--                     Repository/Queries: the queries of the validators; Repository/Stats:
--                     getDashboardStats
--   SlaWorker         src/jobs/workers/slaWorker.js: one attempt at an escalation job
--   Login             src/api/controllers/authController.js: login and register
--   Controller        src/api/controllers/incidentController.js: create, assign, resolve, feedback;
--                     Controller/Listing: listIncidents
--   Api               src/api/controllers: panic alerts, chats, campus alerts, users, departments and
--                     the dashboard, a child module each; Api/Paging: the paging of the lists;
--                     Api/Analytics/Refresh: src/jobs/workers/analytics.worker.js
--   Realtime          src/realtime/handlers, and the connection handler of src/index.js
--   Client            client/src: the session (AuthContext.jsx, api/client.js), the protected routes
--                     (App.jsx, ProtectedRoute.jsx), the panic alert on the screen
--                     (GlobalSocketListener.jsx) and the countdown (SLACountdown.jsx)
--   Departments       src/infrastructure/repositories/DepartmentRepository.js
--   CachingProxy      src/infrastructure/repositories/CachingIncidentProxy.js, and the
--                     CacheInvalidator of src/domain/observers/observers.js
--   Observers         src/domain/observers/observers.js; Observers/Timer: SLATimerManager.js;
--                     Observers/Hotspot: HotspotDetector.js
--   Notification      src/domain/decorators: the channels of a notification
--   Service           src/services/IncidentService.js: the four use cases
--   Publisher         src/domain/observers/IncidentEventPublisher.js and wireObservers.js
--   Commands          src/domain/commands: manual reassignment, alerts, and the invoker
--   RateLimiter       src/api/middleware/rateLimiter.js: the sliding window
--   Strategy          src/domain/strategies/AssignmentStrategy.js: the four strategies
--   Validation        src/domain/validators/ValidationChain.js: the six handlers
--   Middleware        src/api/middleware/errorHandler.js and auth.js
--   Common, Samples   helpers, and the concrete objects of the tests
--
-- Fallible code with effects is a function `S → Result E A × S` (Common/Exec): what was written
-- before a throw stays written, as in the program. An incident and the staff objects that it refers
-- to live in one `World`, where staff are references, so that two holders of one object see the same
-- writes. Clocks, the time zone, the database client, Redis, the queue, the channels and token
-- verification are arguments. Counters that the program may decrement below zero and the numbers of
-- a query string are integers, and all other numbers are naturals.
--
-- The one loop on fuel is `check_slots` of User/Shift: two rounds for each hour of the window and
-- two more reach its end, as the loop advances by half an hour (User/Shift/Slots); where the fuel runs
-- out it has no answer.
--
-- What is emitted to a room is a list of pairs of a channel and a notice, and who hears it is asked of
-- a socket: of its rooms after it has connected and sent any messages. What the database finds for
-- the conditions of a query is a parameter, with the documented behaviour as a hypothesis.
--
-- Not modelled: the workers for mail and for the language model, the daily summary and the
-- classification of a report, which call third parties; the heat map and the performance of staff,
-- which hand the rows of a query on; the pages of the client but for the requests of those with roles,
-- which are markup over requests; the database client and the queues with their retries; a write to
-- the cache that lands after a later deletion, and handlers that interleave; geographic coordinates,
-- which are opaque; and message texts, which are functions of the values kept here. A document that
-- leaves out the number or the category of an incident is read as one that clears them; the program
-- updates rows with both.
mod Samples
pub mod Api
pub mod CachingProxy
pub mod Client
pub mod Commands
pub mod Common
pub mod Controller
pub mod Departments
pub mod Errors
pub mod Factory
pub mod Incident
pub mod Login
pub mod Middleware
pub mod Notification
pub mod Observers
pub mod Publisher
pub mod RateLimiter
pub mod Realtime
pub mod Repository
pub mod Service
pub mod Sla
pub mod SlaWorker
pub mod Strategy
pub mod User
pub mod Validation
