-- ===== src/Lib.antt =====
-- Kubechecks in models: the queue of check requests, the run of a check and its workers, the
-- report, the caches of archives and clones, and which applications a change affects.
--
-- A webhook enqueues a pull request. The worker of its repository runs the check, which asks the
-- matchers for the affected applications, reads the pull request's files from the caches, gives
-- the applications to its own workers, collects the results of each in a message, and posts that
-- message as comments within the limits of the VCS.
--
-- - CommitState: pkg/commitState.go. A state is the number it has in Go.
-- - Msg.Store: the operations on a `Message` of pkg/msg/message.go, which is a record with maps as
--   association lists; Msg.Store.History and Msg.Store.Worst are on any sequence of them, and on
--   `WorstState`.
-- - Msg.Markdown, Msg.Runes, Msg.Split: `mdState`, `cutAtRune` and `splitDetailsAtLines` of the same
--   file. The loop over the lines is `feed_all`, its body `feed`, and the inner loop that shortens a
--   line `shrink`. Msg.Split.Shrink, Pieces, Loop and Laws are on its parts.
-- - Msg.Sections: `buildAppSections` and `splitCheck`, with the closures of the first as functions on
--   a record of its variables.
-- - Msg.Chunks: pkg/msg/split.go, which packs sections into comments and frames them. Pack, Frame
--   and Uncut below it are on the packing, the limits, and reports that no comment cuts.
-- - Msg.Comment: `BuildComment`, which joins these.
-- - RepoUrl: pkg/repoUrl.go. The two parsers of URLs are parameters.
-- - Queue: `RepoQueue` of pkg/queue/manager.go; Queue.Steps is the step relation of the handlers, the
--   worker and the shutdown that share one, with the cancellations that each context sees first;
--   Queue.Safety and Queue.Superseding are on its invariant, and Queue.Manager is `QueueManager`.
-- - Archive: pkg/archive/cache.go and `isRetriableDownloadError` of pkg/archive/download.go. What a
--   download returns, and what other callers do in between, is data of an attempt. Archive.Manager is
--   `Manager` of pkg/archive/manager.go, with its messages in Archive.Manager.Notices, and
--   Archive.Urls `extractSHAFromArchiveURL`. The answers of the VCS client are data of a call.
-- - AppDir: pkg/appdir/app_directory.go. Argo CD's `GetSource` and `HasMultipleSources` are
--   parameters.
-- - AppSets: pkg/appdir/appset_directory.go. What Argo CD's `GetSource` returns of a template is a
--   field, the application sets in changed files are given as parsed, and doublestar's matching of
--   globs is a parameter.
-- - Affected: `ConfigMatcher`, `MultiMatcher`, `Union` and `modifiedDirs` of pkg/affected_apps.
-- - GitRepos: `PersistentRepoManager` and `EphemeralRepoManager` of pkg/git/manager.go, with the
--   names of branches of pkg/git/repo.go in GitRepos.Names. What git answers is data of a call.
-- - Retry: pkg/vcs/github_client/retry.go. The answers of the client are data.
-- - Events.Check: `Process`, `process` and `settle` of pkg/events/check.go, as a function of the
--   outcomes of all calls, with a trace of the calls on the pull request; Events.Check.Statuses and
--   Settled are on the statuses in it. Events.Pool is `queueApp` and the workers of
--   pkg/events/worker.go as a step relation. Events.Generated is `GenerateListOfAffectedApps` and
--   the diffs of application sets in pkg/events/appset_spec_diff.go, Events.Reviews the AI reviews,
--   Events.Repos `getRepo`, Events.Manifests `getManifestsWithRetry` and Events.Runner `Run` of
--   pkg/events/runner.go.
-- - Removals: pkg/checks/diff/removals.go. `hasPath`, `removalPoint` and `removePath` are in Removals,
--   `applyFieldRemovals` and what it calls in Removals.Plan. The sets of paths and the comparison of
--   values of structured-merge-diff are parameters.
-- - Kustomize: pkg/kustomize/process.go. The file system, with the parsed files, is a parameter.
-- - VcsMap: pkg/appdir/vcstoargomap.go, with the directories of AppDir and AppSets as the entries of
--   its map; VcsMap.Watching is what the watchers of pkg/app_watcher do to it, and VcsMap.Matcher
--   `ArgocdMatcher` of pkg/affected_apps/argocd_matcher.go, which reads it.
-- - Common: texts as lists of bytes, integers, maps, and tests.
-- - Tests: the laws at concrete inputs.
--
-- Go's `int` is the natural numbers, or the integers where the code subtracts; a length in bytes is
-- far from 2 ^ 63. The reference counts of archives and clones, and the counters of reviews,
-- are `int32` and wrap around.
--
-- Fuel: `shrink` has one more than the bytes of its line, which it shortens in every round;
-- `cut_short_loop` one more than its room, which falls in every round; `split_parts` two more than
-- the room for details, which the reserve approaches. The rounds of `trim_seqs` are the bytes of its
-- text, and those of `collapse` the bytes of a name, each of which takes one. `do_from` has one
-- round more than the retries that are left, `parent_matches` a round for each byte of a directory,
-- which `path.Dir` shortens, and `manifests_loop` as many rounds as there are attempts, the last of
-- which returns. `process_dir` is given its fuel, of which the depth of the calls needs one more than
-- there are directories with a kustomization.
--
-- Not modelled: locks, where an operation that holds one is a single step, logs, metrics, tracing
-- and the clock, with the timeout that is put on the context of a check; the formatting of a
-- duration, which is text that a footer is given; the remote calls of all packages, which are
-- go-git's, Argo CD's and the VCS's; `processApp` of pkg/events, which joins them; the checks of
-- pkg/checks but for the removed fields; the clients of pkg/vcs but for the retries; the
-- informers of pkg/app_watcher; and pkg/argo_client, pkg/helmchart, pkg/aireview, pkg/generator
-- and pkg/server.
pub mod Common
pub mod CommitState
pub mod Msg
pub mod RepoUrl
pub mod Queue
pub mod Archive
pub mod AppDir
pub mod AppSets
pub mod Affected
pub mod GitRepos
pub mod Retry
pub mod Events
pub mod Removals
pub mod Kustomize
pub mod VcsMap
pub mod Tests
