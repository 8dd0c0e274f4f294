-- ===== src/Lib.antt =====
-- The services of the Django boilerplate as functions on the state of one server, and their
-- correctness.
--
-- The program is a Django project. Its core is a set of service classes that views, admin actions
-- and tasks call: tokens, device sessions, the second factor and login in
-- apps/authentication/services.py, brute-force protection and security events in
-- apps/security/services.py, permissions in apps/authorization/services.py, bans in
-- apps/accounts/services.py, webhooks in apps/webhooks, API keys in apps/api_keys, and smaller ones
-- for settings, notifications and files. They share the database, the cache, the clock and the
-- random source, and report to the audit log of apps/audit/services.py.
--
-- - Prelude: the names and lemmas that all modules share; tables as lists with the queries of the
--   object-relational mapper (Prelude.Table) and their laws (Prelude.TableLaws).
-- - Env: what the program takes from outside, as the fields of one record: the settings, and the
--   functions of libraries (digests, Fernet, one-time passwords, the password hasher, Unicode
--   text, the random source, addresses and their names, the HTTP client, file types and images). The
--   theorems hold for every such record that meets their hypotheses.
-- - Models: the rows of apps/*/models.py with the predicates that the classes define. A row refers
--   to another by primary key; an instant is a number of microseconds.
-- - World: the state of the server (World.Monad) with `atomic` and `on_commit` of
--   django.db.transaction as actions on it. An action returns a value or an exception, and the
--   state after it; an exception inside `atomic` restores the rows. An operation reads one instant
--   and runs without others in between, as row locks have it. A row read before a change
--   is handed on by value, as the Django objects are. World.Laws and World.Frame say what a
--   transaction keeps.
-- - Common: common/crypto.py, common/logging.py, common/utils/network.py, and Common.Email for
--   `EmailService.enqueue` of common/services/email.py, which may raise inside a request.
-- - Audit, Security.Events: apps/audit/services.py with the guards of apps/audit/models.py, and
--   SecurityEventService.
-- - Security.LoginProtection, Security.KnownAccount: LoginProtectionService, with children on the
--   length of a lock, the rows of the table, a failure, the counters and runs of failures.
-- - Authentication.Tokens, .Sessions, .TwoFactor: TokenService, SessionService and
--   TwoFactorService of apps/authentication/services.py.
-- - Authentication.Login: AuthenticationService.login and apps/authentication/backends.py.
-- - Authentication.Accounts: AccountService, and create_user of apps/accounts/models.py.
-- - Authorization: PermissionService, and Authorization.Registry for
--   apps/authorization/registry.py.
-- - Bans: BanService of apps/accounts/services.py and the task of apps/accounts/tasks.py.
-- - ApiKeys: APIKeyService of apps/api_keys/services.py, with authentication.py and permissions.py.
-- - Common.Idempotency: the decorator of common/idempotency.py over any method of a view.
-- - Core: RuntimeSettingService with its cache and FeatureFlagService of apps/core/services.py.
-- - Notifications: apps/notifications/services.py and apps/api/views/notifications.py.
-- - Files: the checks of uploads in apps/files/validators.py and apps/files/services.py.
-- - Cleanup: the periodic tasks of apps/authentication, security, audit, notifications and files.
-- - Middleware: apps/authentication/middleware.py, common/middleware/request_id.py, and the checks
--   of apps/authentication/jwt.py.
-- - Webhooks: deliver_webhook of apps/webhooks/tasks.py on one delivery, Webhooks.Service for
--   apps/webhooks/services.py, Webhooks.Dispatch for dispatch_pending_webhooks, and
--   Webhooks.Workers for several workers at one delivery, as a relation of steps.
-- - Common.Errors: common/exceptions/handler.py; Common.Events: the event bus of common/events.py.
-- - Api: the views of apps/api/views with what their serializers check (Api.Auth and its children for
--   auth.py, Api.Accounts, Api.ApiKeys, Api.Sessions, Api.Settings for core.py, Api.Roles for
--   authorization.py), Api.Responses for common/responses.py, and Api.Failures for the response to
--   an exception. What a view calls of Django and simplejwt is the record Framework; a request
--   that the serializer's declared fields refuse is `none`.
-- - Management: the command apps/core/management/commands/bootstrap.py.
-- - Admin: apps/accounts/admin.py and common/admin.py.
-- - Config: config/settings/production.py and config/settings/database.py.
-- - Tests: a sample environment and runs of the properties.
--
-- Loops of the source are recursions on lists or on the count of draws, so no fuel is used. Sets of
-- names are lists that only membership is asked of. A query without an order returns the rows in the
-- order of their creation.
--
-- Not modelled: routes, lists, filters and throttles of the interface, the serializers of
-- the authorization rows; the classes of the admin site that declare columns; the values of base.py, the
-- command seed and the migrations, which declare or pass values on; rendering and delivery of
-- e-mail, which are effects recorded in the state, and the failure of a mail that a transaction
-- sends after its commit; the columns created_at and updated_at where no code reads them, but for
-- updated_at of the permissions and roles; the audit log's display texts and metadata; the
-- bytes in the file storage; and the middleware that only logs or sets headers.
pub mod Prelude
pub mod Env
pub mod Models
pub mod Common
pub mod World
pub mod Audit
pub mod Security
pub mod Authentication
pub mod Authorization
pub mod Bans
pub mod ApiKeys
pub mod Core
pub mod Cleanup
pub mod Api
pub mod Middleware
pub mod Files
pub mod Notifications
pub mod Webhooks
pub mod Config
pub mod Management
pub mod Admin
pub mod Tests
