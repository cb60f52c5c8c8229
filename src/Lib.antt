-- ===== src/Lib.antt =====
-- QueryCraft's client, the TypeScript program under frontend/src: who is signed in and what they may
-- see, which requests are under way and how they end, and what the forms of the administration save.
--
-- The parts and their files here:
--   Common       shared types: texts, lists, whole numbers, JavaScript values and
--                the order of its numbers, sorting by a key.
--   Session      Session/Deletion models sessionDeletionLifecycle.ts: the module's maps and listeners
--                are a record, begin_deletion is beginSessionDeletion, did_start is
--                didSessionDeletionStart, and so on.
--                Session/Lists models hooks/useSessions.ts: the lists put together from pages, the
--                fetch of one session and, in Cache, the deletion mutation. Session/Undo models the
--                countdown of components/sidebar/UndoToast.tsx.
--   Request      Request/Scope models api/requestScope.ts: the RequestScope object is a record,
--                its timer, its parent's signal and its callers are events of `run`, and
--                with_request_deadline is withRequestDeadline.
--   Auth         Auth/Permissions models auth/permissions.ts and hooks/usePermission.ts,
--                Auth/Expiry auth/sessionExpiry.ts, Auth/Routes the routes of App.tsx, the guard of
--                components/auth/PermissionGuard.tsx and the redirect of pages/SignInPage.tsx,
--                Auth/Identity the boundary of providers/QueryProvider.tsx: its state and what it
--                shows in State, its effects, listeners and mutations in Events.
--   Api          The whole of api/responseValidation.ts, on values of JavaScript: Api/Semantics is its
--                semantic checks, Api/Matching how it finds the operation of a request,
--                Api/Sanitizing how a body is cut down to its schema, and Api/Responses
--                validateOperationResponse, validateFetchResponse and validatedApiFetch. The generated
--                manifest, schemas and validators are parameters. Api/Download models the names of
--                downloads in api/auditDownload.ts.
--   Locale       i18n/locale.ts, with the parsing of addresses as a parameter; Locale/Toggle models
--                components/common/LanguageToggle.tsx, cut at the translation library's change.
--   Ui           Ui/Store models stores/uiStore.ts, and Ui/Copying hooks/useCopyToClipboard.ts.
--   Query        Query/Submit models hooks/useQuerySubmit.ts: an operation is a start, up to its
--                request, and a settling, from its answer; Environment is what may happen between.
--   Admin        Admin/Policies models components/admin/PolicyEditor.tsx: a function for each
--                handler, and in Page which of them the page offers when. Admin/ErrorKeys models
--                components/admin/connectionErrorMessages.ts, and Admin/QuotaRecovery
--                hooks/useQuotaMutationRecovery.ts. Admin/Roles models how hooks/useAdminRoles.ts
--                normalises and compares roles, and Admin/Roles/Saving its two mutations that save one.
--   Workspace    The conversation of pages/WorkspacePage.tsx: Workspace/Turns is what it shows,
--                Page the change of sessions, Submitting handleSubmit, Deleting the deletion of an
--                attempt, Answers handleRegenerate and Retrying handleConnectionRetry, each cut into
--                a start, a settling and an end. Workspace/Selection models
--                hooks/useConnectionSelection.ts, its effects in their order after each render.
--
-- How they meet: a deletion that Session/Deletion begins calls the listener of Query/Submit, which
-- aborts its scope of Request/Scope; Query/Submit asks Session/Deletion for versions; the boundary of
-- Auth/Identity resets the lifecycle and the store whenever it rotates its client, and reads errors as
-- Auth/Expiry does; Auth/Routes asks Auth/Permissions where a user lands; Workspace asks
-- Session/Deletion which late answers still count, and reads errors as Query/Submit and Api/Responses do.
--
-- Conventions: a function that the source runs for its effect takes and returns the record of the
-- state. What the source throws is a value of JavaScript (Common/Value), but in
-- Api, where a validation that throws leaves open which error it is. Asynchronous code is cut at
-- its waits: the answer of a server, a timer or a refetch is an event or an argument, so that runs
-- over lists of events cover every interleaving. Two definitions run on fuel: the following of
-- redirects, which two steps settle, and the sanitizing of a body, for which Api/Sanitizing/Fuel counts
-- what a schema and a body need; Api/Sanitizing/Termination is about that count being enough.
--
-- Not modelled: the backend, the generated API client, the query, router and translation libraries,
-- which only enter by what they call and how they answer; the markup of pages; the other hooks and
-- the pages of the administration; of pages/WorkspacePage.tsx the prefill from the address, the loading of
-- older attempts and the timer of its alert; of api/auditDownload.ts the local name from the clock; the
-- key `__proto__` of an object, which JavaScript treats apart.
pub mod Admin
pub mod Api
pub mod Auth
pub mod Common
pub mod Locale
pub mod Query
pub mod Request
pub mod Session
pub mod Ui
pub mod Workspace
