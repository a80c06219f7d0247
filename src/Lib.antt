-- ===== src/Lib.antt =====
-- The core services of the SaaS backend: who may do what, who belongs to which organization, the
-- limits on logins and requests, the files of an organization, its calendar, its billing and
-- entitlements, its background jobs and its deletion.
--
-- How a request goes: OrgContextGuard resolves the user of the token and the organization that the
-- request names, checks the membership and the organization's status, and RBACGuard checks roles and
-- permissions, which PermissionResolverService reads from the memberships table through a Redis cache.
-- MembershipsService changes that table, logs each change, and invalidates the cache through an
-- optional notifier; the seat limit is an optional provider too. Brute-force protection and rate limits
-- keep their counters in Redis. The storage service keeps the metadata of files that clients upload
-- to S3 or Azure through signed URLs. Stripe's webhooks write the billing state of an organization, from
-- which, with the overrides of administrators, its entitlements follow, kept in Redis. The planning
-- service keeps events whose recurrence is expanded when they are read; an update carries the version that
-- it saw, a split ends a series and opens another, and a sweep sends the reminders. A request for the
-- deletion of an organization publishes an event, on which a worker deletes it.
--
-- Files, and the code that each is about:
--   Prelude    Boolean tests, lists under `where` clauses, and `Method`, a service method: a function
--              of the state that returns a value or throws, and keeps what was written before
--   Platform   interfaces of what is not the program's code: Platform.Table is a Prisma model
--              (`findFirst`, `create`, `update`, …), Platform.Redis a cache, Platform.Counters its
--              counters; their laws are the documented behaviour, and list_table and
--              Platform.InMemory are instances that meet them; Platform.EventBus is `publish` of
--              libs/events, which may throw as the transport that it hands the event to does
--   Access     libs/common/src/rbac (Permissions, Roles), libs/rbac/src/services (Context, Cache,
--              Resolver), libs/rbac/src/guards (Guard: rbac.guard.ts; Incoming and OrgContext:
--              org-context.guard.ts); Coherence is the agreement of cache and table
--   Members    libs/memberships/src: Repository, Service (memberships.service.ts), Invite
--              (invite-member.service.ts), Remove (remove-member.service.ts); Calls is a sequence of
--              calls in any order, which Seats, Tenancy, Trail and Access.Coherence.Writes are about
--   Users      libs/users/src/infrastructure/repositories/user.repository.ts
--   Organizations  prisma/organization.prisma, the status; libs/organizations/src: Repository, Service
--              (organizations.service.ts); Ownership is about them
--   Security   libs/security/src/services: BruteForce, with its specification in BruteForce.Spec, and
--              RateLimit
--   Storage    libs/storage/src: Repository, Policy (upload-policy.service.ts), Service
--              (storage.service.ts); Quota, Lifecycle and Tenancy are about them
--   Billing    libs/billing/src/application/services/subscription.service.ts, the webhooks
--              of Stripe: Subscription.Transitions the changes of the row, Subscription the handlers; Effects
--              and Recording are about them
--   Features   libs/feature-flags/src: Repository, Service and Listener
--              (feature-flags.service.ts), Guard (feature.guard.ts); Overrides is about them
--   Jobs       libs/jobs/src: Repository, Service (job.service.ts); History is a sequence of marks
--   OrgDeletion  libs/org-deletion/src: Repository, Service (org-deletion.service.ts and
--              org-deletion-scheduler.service.ts), Worker (org-deletion-worker.service.ts); Requests,
--              Erasure, Steps, Outcomes and Completion are about them
--   Planning   libs/planning/src: Rrule (the package rrule), Recurrence (recurrence.service.ts), Store and
--              Repository (planning.repository.ts), Inputs, Service and Series (planning.service.ts),
--              Reminders (planning-reminder-scheduler.service.ts); Expansion and Ordering are about the
--              occurrences, Versions about who may change an event, Creation, Exceptions, Splitting,
--              Marks, Sweeping, Turns and Once about what is left in the tables
--
-- Conventions: an id is a number (a UUID has 128 bits), times are numbers given as arguments, an id that
-- the database or `randomUUID` draws is an argument, log lines of the logger are left out, and a
-- message keeps its constant part. A handler runs without another between its steps; the orders of
-- whole calls are sequences. A database query that fails and an event bus that does not
-- take an event throw after the writes before them.
-- No loop of the code modelled needs fuel: each is a recursion on a list.
--
-- Not modelled: notifications, mail, the export of organizations and the other workers, which are to come,
-- and the HTTP controllers, dependency injection, observability and configuration, which are wiring.
pub mod Prelude
pub mod Platform
pub mod Access
pub mod Members
pub mod Users
pub mod Organizations
pub mod Security
pub mod Storage
pub mod Billing
pub mod Features
pub mod Jobs
pub mod OrgDeletion
pub mod Planning
