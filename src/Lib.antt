-- ===== src/Lib.antt =====
-- DocQuery: a multi-tenant service that stores documents, cuts them into chunks, searches them and
-- answers questions from them. This library models the parts that decide who may do what and that
-- carry a document from its upload to the context of a question.
--
-- A request passes the guards (Gate), which look up a key (ApiKeys) or an access token, find the
-- membership in the organization and compare a role (Permissions, Roles). Behind them the services
-- work on the tables of the database: members and their roles (Members), grants on documents
-- (Access), documents and their processing (Documents), which cuts texts (Chunker) and pages its
-- lists (Pagination). Questions (Query) search the chunks of the documents that the user may read
-- (Search), cut the ranked chunks to a budget for the language model (Context), cite them, and
-- keep answers in a cache (Redis); conversations send their messages as questions (Conversations).
-- Texts become vectors in batches (Embeddings). Around the requests stand the usage and the quotas
-- of an organization (Usage), the answers to errors (ErrorAnswers), the store of failed jobs
-- (DeadLetters) and the shutdown of the process (Shutdown).
--
-- The files and the source, by paths from the root of the repository:
-- - Base: shared helpers. Base/Errors is src/utils/errors.js: the error classes with their codes,
-- and an action over a state that comes back after a throw too. Base/Table is the interface of a
-- database table as the Prisma client offers it, with the documented meaning of each call as laws,
-- and a table in memory that meets them. Base/Keyed holds the lemmas on rows with an identifier.
-- - Text: texts as lists of UTF-16 code units, with the string functions that the source calls.
-- - Roles: OrganizationRole of prisma/schema.prisma.
-- - Members: src/modules/members/member.service.js (addMember, updateMemberRole, removeMember),
-- with the caches dropped and the jobs handed out as a list of effects. Members/Listing has its
-- listMembers.
-- - Access: src/modules/documents/services/document-access.service.js, every method.
-- - Chunker: src/modules/documents/services/chunker.service.js, every method.
-- - ApiKeys: src/modules/api-keys/api-key.service.js, every method.
-- - Permissions: src/config/permissions.config.js.
-- - Gate: authenticate, resolveOrganization, requirePermission and requireRole of src/middleware,
-- with the errors of src/utils/jwt.js, and the composition of the others with requireRole in front
-- of the routes for owners and administrators; requirePermission is mounted on no route.
-- - Pagination: src/utils/pagination.js; its encoding of cursors is in Conversations/Cursor.
-- - Documents: src/modules/documents/document.service.js (every method) and enqueueDocumentJob of
-- src/services/queue.service.js. Documents/Rows: the two repositories under
-- src/modules/documents/repositories. Documents/Processing:
-- src/modules/documents/services/document-processing.service.js.
-- - Context: src/modules/query/services/context-selector.service.js.
-- - Search: src/modules/search/search.repository.js, search.service.js and services/hybrid-
-- search.service.js and keyword-search.service.js. Search/Fusion: services/rrf.service.js. What
-- the database ranks is in the record Engine of Search/Rows.
-- - Redis: buildKey, get, set and delPattern of src/services/redis.service.js; Redis/Through has
-- what a read through a cache leaves in it. Query/Cache: src/services/rag-cache.service.js.
-- - Query: src/modules/query/query.service.js; Query/Prompts has its prompts, Query/Rerankers the
-- rerankers of src/modules/query/rerankers, over what they give for the chunks they get.
-- - Auth: src/modules/auth/auth.service.js, with the tokens of src/utils/jwt.js; Auth/Profile has
-- getCurrentUser.
-- - HttpClient: resilientFetch of src/utils/http-client.js.
-- - RateLimit: src/middleware/rate-limiter.middleware.js, with increment of
-- src/services/redis.service.js.
-- - Usage: src/services/usage-metering.service.js. Usage/Quota: src/services/quota.service.js and
-- src/middleware/quota.middleware.js.
-- - DeadLetters: src/workers/dlq.service.js; DeadLetters/Payload has the redaction of the data,
-- DeadLetters/Worker the handlers of failed audit and document jobs of src/workers/index.js.
-- - ErrorAnswers: src/middleware/error.middleware.js.
-- - Embeddings: src/modules/documents/services/embedding.service.js.
-- - Organizations: src/modules/organizations/organization.service.js. Organizations/Controller:
-- organization.controller.js beside it.
-- - RetrievalMetrics: src/modules/evaluations/metrics/retrieval.metrics.js but for the mean over
-- questions.
-- - Shutdown: src/utils/shutdown.js.
-- - CostOptimizer: src/services/cost-optimizer.service.js and src/services/model-
-- router.service.js.
-- - Versions: createVersion of src/modules/documents/services/document-version.service.js.
-- - Conversations: src/modules/conversations/conversation.service.js and
-- conversation.repository.js; Conversations/Sending has what sendMessage makes of a message,
-- Conversations/Views what callers get, Conversations/Cursor the text of a cursor.
--
-- How the code is modelled. Identifiers are numbers, a missing one is none where the code tests
-- for it, and a missing text is the empty one. A handler is a function from its arguments and the
-- state to its result and the state after it; the tables are lists of rows, changed through the
-- operations of Base/Table only. Times are milliseconds. What is not in the repository is a
-- parameter: the SHA-256 hash, the token library, the text of a stored identifier, random texts,
-- parseInt, lower case beyond ASCII, the order that the database returns rows in; and so are the
-- collaborators that the constructor of the document pipeline takes, the ranking of the database,
-- the points of the reranker and the service that ranks for it, the rewriting of questions, the
-- language model and the client of Redis. A score is a number that stands for the bits of a
-- double. Messages of errors are left out where nothing reads them. The queue of documents holds
-- the jobs that it was handed, and adds nothing under the identifier of one that it holds; when it
-- drops old ones is left to the package.
--
-- Bounds. The loop that cuts a text into windows runs on fuel, the number of words: each window
-- starts at least one word after the last, so the fuel is enough. The loop over the attempts of a
-- request runs on their number, and a client that follows cursors on a number of pages, with
-- theorems that these are enough. The batches of texts run on the number of texts, which is enough
-- where a batch has room for one: a result that is not an error has a vector for each text. Every
-- other loop is structural recursion. Lengths, counts and times are far below 2 ^ 53, so that the
-- numbers of JavaScript are exact on them.
--
-- Not modelled: the failures of the database other than a refused insertion of chunks or of a
-- usage record; the expiry of caches; extraction, providers of embeddings, the rewriting of
-- questions and language-model calls, which are packages, heuristics or other services; document
-- intelligence, the knowledge graph, the security of prompts and the detection of personal data,
-- which are tables of regular expressions and heuristics over texts; the metrics of generated
-- texts and the service of evaluations, whose results are rounded doubles; the cache in front of
-- whole handlers (src/middleware/cache.middleware.js), which is mounted on no route; and the HTTP
-- glue, logging and metrics.
pub mod Base
pub mod Roles
pub mod Members
pub mod Access
pub mod Text
pub mod Chunker
pub mod ApiKeys
pub mod Permissions
pub mod Gate
pub mod Pagination
pub mod Documents
pub mod Context
pub mod Search
pub mod Redis
pub mod Query
pub mod Conversations
pub mod Auth
pub mod HttpClient
pub mod RateLimit
pub mod Usage
pub mod DeadLetters
pub mod ErrorAnswers
pub mod Embeddings
pub mod Organizations
pub mod RetrievalMetrics
pub mod Shutdown
pub mod Versions
pub mod CostOptimizer
