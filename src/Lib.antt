-- ===== src/Lib.antt =====
-- StudyMate backend: a model of its core services, with the theorems about it.
--
-- The program is a Go service (backend/) over Postgres, Valkey and a few outside services. This
-- library models the parts that decide who is charged, what is graded and what is stored:
--
-- * Billing (backend/internal/billing): Billing.Model has the records of model.go and the columns of
--   the tables; Billing.Repository one action for each method of repository.go but ListActivePlans,
--   its SQL as a function of the tables; Billing.Webhook the Razorpay and PayU callbacks of
--   webhook.go; Billing.Limiter the daily quota of limiter.go. Billing.Ledger, Billing.Capture,
--   Billing.Quota and Billing.Webhook.Guards have the theorems.
-- * Quiz (backend/internal/quiz): Quiz.Model has the tables and payloads of models.go; Quiz.Attempts
--   and Quiz.Submit the methods CreateAttempt, SubmitAttempt and loadResult of service.go;
--   Quiz.Grading the scoring loop,
--   Quiz.Listing GetQuiz, Quiz.Review GetReview and GetUserReports. Quiz.Attempts.Opened,
--   Quiz.Submit.Atomic, Quiz.Submit.Refusals, Quiz.Submit.Scored, Quiz.Grading.Counts,
--   Quiz.Grading.Score and Quiz.Review.Marked have the theorems about them.
-- * Drafts of scanned exams (backend/internal/quiz/review.go): Quiz.Drafts has the validation of a
--   reviewer's edits, Quiz.Editing GetDraft, Quiz.Saving SaveDraft, Quiz.Publishing PublishDraft, and
--   their children the theorems.
-- * Uploads (backend/internal/scan/upload_chunked.go): Scan.Model has the rows and the keys of the
--   object storage, Scan.Pages the queries of repository.go and the storage's calls, Scan.Chunks
--   HandleChunkUpload, Scan.Complete HandleUploadComplete; Scan.Guarded, Scan.Received,
--   Scan.Composed and Scan.Interleaved have the theorems.
-- * The scan worker (backend/internal/scan/worker.go): Scan.Worker.Model has the whole rows and the
--   services outside, Scan.Worker.Repository the queries of repository.go and worker_repository.go,
--   Scan.Worker.Cache the two tiers of cache.go, Scan.Worker.Pages processPage, failJob and the loops
--   over the pages, Scan.Worker.Persist persistQuiz and what it writes, Scan.Worker.Settle the ends of
--   a job, Scan.Worker.Text and Scan.Worker.Vision the two pipelines, Scan.Worker.Process ProcessJob
--   and poll. Scan.Worker.AtRest, Scan.Worker.Stuck and Scan.Worker.Cache.Stored have the theorems.
-- * The language model (backend/internal/quiz/ai): Ai.Detect has pagedetect.go, Ai.Mix mix.go,
--   Ai.Response the parsing of a reply in provider.go, Ai.RateLimit ratelimit.go; their children
--   Valid and Spaced have the theorems.
-- * Authentication (backend/internal/auth): Auth.Model has the tables, Auth.Repository every method of
--   repository.go, Auth.Validation validator.go, Auth.Tokens VerifyToken, RefreshToken and Login of
--   service.go, Auth.Registration the signup with otp.go, Auth.Passwords the changes of a password;
--   Auth.Sessions, Auth.Guesses, Auth.Resets and Auth.Signup have the theorems.
-- * Practice (backend/internal/careergoals/adaptive/selector.go): Practice.Model has the tables,
--   Practice.Queries the queries, Practice.Selector SelectForDaily and SelectForWeekly; Practice.Sets,
--   Practice.Selected, Practice.Served, Practice.Returned and Practice.Shares have the theorems.
-- * Rate limiting (backend/internal/common/middleware/ratelimit.go): Middleware.RateLimit has limit with
--   its calls of Valkey, Middleware.RateLimit.Windows the theorems.
-- * Prelude (shared names, text functions, integers), Exec (how a request runs) and Json (decoded
--   events) serve all of them.
--
-- A request is an action of Exec: a function from a world to a result and a world. The world holds
-- the component's tables and a list that says which of the calls to come fail (a failing call
-- changes nothing and returns the call's error), so that a theorem for every world covers every
-- pattern of failing queries, updates and deliveries. Requests run one after the other, but for the
-- overlapping uploads of Scan.Interleaved; a row lock (FOR UPDATE) is this order. A transaction
-- restores the tables when its body or its commit fails.
--
-- Loops of the source run over lists or over two attempts, and are structural recursion. The only
-- fuel is that of Prelude.Doubles, where 128 doublings bring a quotient of two numbers below 2 ^ 64
-- to 53 digits.
-- Ids and counts are natural numbers, instants are whole seconds, and a score is a whole number of
-- tenths of a percent, whose quotient and products are rounded as float64 rounds them
-- (Prelude.Doubles). The clock is read once for each request.
--
-- Not modelled: HTTP decoding and routing, logging, metrics and audit rows, the analytics cache,
-- generated SQL plans, and the contents of outside services. Digests, the JSON decoder, the
-- calendar, unicode.IsLetter, the database's order of texts and the AI explainer are parameters; so are
-- bcrypt, the JWT library, net/mail's test of an address, unicode's tables of case, random numbers and
-- tokens, the OCR, the language models, and the texts that fmt prints of numbers and pointers. Prompts,
-- mail and push delivery, the goals and the practice sets made for them, and administration are
-- left out. A practice set's share of weak topics, a product of floating-point numbers in the
-- source, is a parameter, and so are the orders of its shuffles.
pub mod Ai
pub mod Auth
pub mod Billing
pub mod Exec
pub mod Json
pub mod Middleware
pub mod Practice
pub mod Prelude
pub mod Quiz
pub mod Scan
pub mod Tests
