-- ===== src/Lib.antt =====
-- Keco discovers repositories on GitHub, crawls them, analyses them and serves them by a search
-- index. This library models the worker that discovers, the worker that crawls, the journal by which
-- the workers tell each other what they did, the analysis of a repository, the vocabulary in which it
-- is told, with the selections and the queries of the web site, and what these stand on.
--
-- How the parts interact. `runDiscovery` (apps/workers/src/discovery/index.ts) opens a
-- `DiscoveryStore`, begins or resumes a sweep, and works off a queue of search windows: it asks
-- GitHub Search for the pages of a window, records the items, splits a window that holds more than
-- 1000 results, and flushes what it recorded to a `DataStore`. The crawler reads the repositories
-- that discovery wrote, and fetches those of its shard, a few at a time: `fetchRepo` writes a
-- repository's files to the cache, appends an event to the journal, and then remembers the fetch. The
-- analyzer reads the journal from its checkpoint, and advances it past each event it has handled; for
-- each repository, `analyzeRepo` goes by rules, by external signals and, where these leave it open,
-- by a model, and says all it says in values of taxonomy.yaml. The web site reads a selection of
-- those values from its URL, and proposes queries in the words of the same file.
--
--   Prelude          numbers, lists, texts (lists of character codes), maps and integers
--   DataStore        Values, Port: apps/workers/src/lib/data-store.ts;
--                    Memory, Files: data-store.memory.ts and data-store.fs.ts beside it
--   Github           Item, Client: packages/github/src/search.ts, its items, its pacer and its retries,
--                    with the backoff of quota.ts; Quota: its governor; Shard: `ownsShard` of
--                    index.ts
--   Discovery        Windows, Plan, Sweep, Run: windows.ts, plan.ts, sweep.ts and index.ts of
--                    apps/workers/src/discovery; Collections, Store with its Schemas and Opening:
--                    collections.ts, store.ts and schemas.ts of its store folder; Dates, Clock: the
--                    UTC dates that they use
--   Core             Events, Taxonomy, Schema, Read: events.ts, taxonomy.ts, taxonomy-schema.ts and
--                    the facet selections of read.ts, in packages/core/src
--   Cache            Keys, Journal: keys.ts and journal.ts of packages/cache/src
--   Crawler          Worklist, Skip, Fetch: worklist.ts, sources/github/skip.ts and fetch.ts of
--                    apps/workers/src/crawler, with readme.ts and manifests.ts; Queue, Run: `crawl`
--                    and `runCrawler` of index.ts; History: store.ts and collections.ts of its
--                    store folder
--   Analyzer         apps/workers/src/analyzer/index.ts, its loop
--   Analyze          Rules with Runtime and Derived: kind.ts, runtime.ts and derived.ts of
--                    packages/analyze/src/rules, and Patterns their regular expressions; Llm,
--                    Pipeline: llm.ts and analyze.ts; InstallMethods: signals.ts, its install
--                    method of Artifact Hub, with Shell the words that a shell reads of it
--   Signals          packages/signals/src/provider.ts
--   Web              Spelling, Suggest: apps/web/src/lib/spelling.ts
--   Shutdown         apps/workers/src/lib/shutdown.ts
--
-- State and operations. A function is modelled under its own name, in snake case. A class is a
-- record that its methods take and return; what throws returns an `Option` of an error's text, a
-- `Result`, or no result. `await` points are no steps of their own but in three places: the shutdown
-- handler of discovery is `interrupt`, placed between pages; the tasks of `crawl` are a step relation,
-- `Step`, in every order that the queue allows; and the writes of `fetchRepo` are a list of effects,
-- that may be cut off between any two, as are those of a batch of the analyzer.
--
-- Parameters. The search and the clock are a `World`, by the number of the request and of the
-- reading; GitHub's answers, the length of sleeps and the jitter behind `SearchClient` are a
-- `Net`; GitHub's answers to `fetchRepo`, raw files, base64, the reading of dates and the icon's files
-- are its `Deps`; the data store behind discovery is a `Backend`, which the in-memory store fills; the
-- monotonic factory of ulid is a function from its state and the time; what the analysis of a
-- repository comes to is a function of the event, the repository and its content hash; what `crawl`
-- comes to is a function of the work list for `runCrawler`; SHA-256, `toLowerCase`, JSON's `parse` and
-- `stringify`, `encodeURIComponent`, the protocol of a URL and the texts of errors are functions. The
-- families of taxonomy.yaml are an argument of every lookup, and what YAML reads of it one of
-- `parse_taxonomy`. The model that is asked is a function of the correction it is sent; what a
-- provider is answered is a function of the key and the time; the signals that `analyzeRepo` gathers
-- are of any type, with a test for what their schema says of them.
--
-- Bounds and fuel. Instants, counts and ids are natural numbers: the source's stay far below 2^53.
-- Confidences and the relevance of a repository are counted in hundredths, which the source adds and
-- compares as floating-point numbers.
-- `loop` takes fuel, a round for each window; Discovery/Windows/Measure weighs a window by the
-- windows that it can become, and a queue that weighs less than the fuel is worked off. A round of
-- `write_batches` takes at least one document, so as many rounds as documents are enough. A sleep
-- takes a millisecond at least, so the wait in milliseconds is fuel enough for `wait_loop`. A day of
-- the journal goes by its number, and `days_between` counts the days that are left.
--
-- Not modelled: logging and progress, since they decide nothing; zod's own parsing, Octokit, node:fs,
-- p-queue and Meilisearch, since their code is not here; the fetching and resizing of icons; the
-- prompt of the model, the providers behind `Provider` and what `gatherSignals` makes of them but the
-- install method of Artifact Hub, and the package identities; the analyzer's two modes for an
-- operator; scoring, which is floating-point; the storage behind the cache, the projector, the search
-- index, the API, the command line, and the routes and views of the web site.
pub mod Prelude
pub mod DataStore
pub mod Github
pub mod Discovery
pub mod Core
pub mod Cache
pub mod Crawler
pub mod Analyzer
pub mod Web
pub mod Analyze
pub mod Signals
pub mod Shutdown
