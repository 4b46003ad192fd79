-- ===== src/Lib.antt =====
-- A verification library for aish, an interactive shell in Go.
--
-- The REPL (shell/internal/shell) reads a line with the line editor (shell/internal/term), runs
-- what is parsed from it with the variables of the environment table (shell/internal/env), and
-- records background jobs in the job table (shell/internal/jobs), which a goroutine updates when
-- the operating system reports a child. Whole scripts are read into statements,
-- which shell/internal/translate runs, describes in words and writes out again. The cloud plugin
-- (plugins/cloud) tries requests to a model service again.
--
-- - Jobs, and the modules below it: shell/internal/jobs/jobs.go. `JobTable` is the struct without
--   its mutex; each method is a function of the same name in snake case that returns the new table.
--   The map of jobs is the list of its entries, and the order in which the runtime visits them is
--   an argument. Jobs.Find is the method `Find`, with fmt.Sscanf's `%d`. Jobs.Reaper is what `drain`
--   of shell/internal/jobs/signals_unix.go does with the statuses that the system returns.
-- - Term.Buffer: shell/internal/term/buffer.go; a rune is a number, a text a list of runes.
--   Term.Buffer.Zip is the abstract view, the runes before and after the cursor.
-- - Term.History: history.go and ghost.go of the same directory. Term.Search: search.go.
-- - Term.Editor: the loop of `ReadLine` in editor.go, a function of the keys that are decoded.
--   Completer, entries and strings.ToLower are arguments. Drawing and raw mode are left out.
-- - Term.Decode: DecodeKey of keys.go, on bytes, and `nextKey` of editor.go, on the results of the
--   reads that come before the end of input.
-- - Term.Highlight: highlight.go; the resolver is an argument.
-- - Env: shell/internal/env/env.go; Env.Expand is its method Expand, with the number of runes that an
--   expansion consumes ahead.
-- - Parser: shell/internal/parser/parser.go; `tokens_from` is the loop of tokenize, with the number of
--   runes that a closing quote makes it skip.
-- - Parser.Substitution, Parser.Braces and Parser.Expand: expand.go of the same directory. `place` is
--   the case of expandCmdSub's loop; the executor, its world and path/filepath are arguments.
-- - History.Detect: shell/internal/history/detect.go, which files a pipeline destroys or moves; its
--   maps of names and flags are lists.
-- - Translate: shell/internal/translate/ast.go, the statements that scripts are read into.
--   Translate.Run is run.go, with the files, the Runner and the variables as a record of operations
--   on a world; its cap on while loops is the code's own, 10000. Translate.Explain is explain.go and
--   Translate.Migrate migrate.go.
-- - Translate.Bash: shell/internal/translate/reader/bash.go. Tokens is tokenizeBash and what reads
--   tokens, Line the statement on a line, Headers the logical lines and the first lines of blocks,
--   Cases the arms of a case, Blocks parseBlock and the readers of blocks. The lines from an index on
--   are a list.
-- - Cloud.Retry and Cloud.CostLog: plugins/cloud/internal/reliab/reliab.go. The context, the timer and
--   the function that is tried are operations on a world, as are the clock and the writer of the log.
-- - History.Interceptor: shell/internal/history/interceptor.go, as an interceptor of Shell.State; the store
--   and the snapshotter are operations on a world.
-- - Cache: Resolve of shell/internal/cache/cache.go. The store over SQLite and the plugin are
--   operations on a world.
-- - Shell, and the modules below it: shell/internal/shell. Shell.State is the struct, with a world for
--   what it does not hold; each function returns the new state. Shell.Alias is builtin_alias.go,
--   Shell.Taint taint.go and the registry of shell/internal/secrets/taint.go. Shell.External is
--   runExternal and RunForCapture of shell.go, with runBackground of jobs_dispatch.go; Shell.Dispatch
--   is dispatch and ResolveTier. Shell.Foreground is builtin_jobs.go, builtin_fg_unix.go and
--   builtin_bg_unix.go, Shell.Builtins cd, export, set, unset, logout and exec, Shell.Source
--   builtin_source.go, Shell.Repl runStream and drainJobNotices. Processes, the file system, the
--   terminal, the cache and the builtins that are not modelled are operations on the world.
--   Shell.Foreground.Table and Shell.External.Keeps follow the job table through the builtins about
--   jobs and through runExternal.
-- - Prelude: the names and lemmas that the others share.
--
-- Every recursion is on a list or a number that the code's loop runs over, with five exceptions. The
-- readers of blocks in Translate.Bash are on fuel, 2 n + 1 for n lines, which is enough, since each
-- call of one consumes a line but one that stops at `fi`. expandBrace in Parser.Braces is on fuel,
-- one more than the runes of the word, since it calls itself on a shorter text each time.
-- runExternal and RunForCapture call each other as deep as what commands print makes them, so
-- Shell.External bounds how many calls stand within each other; one is enough where substitutions do
-- not nest, and more change nothing. The loop of fg in Shell.Foreground waits for another goroutine,
-- so it has a bound on its rounds; more rounds than looks at a running job are enough. runStream has
-- a bound on the lines that it reads; one more than the runes of the input are enough, since each line
-- but the last takes a newline.
--
-- An int of the code that is never negative is a natural number, without the bound of 64 bits; where
-- the code reads a number, in Find and in the ranges of braces, the bound is kept. Strings are taken
-- as texts of runes, not bytes.
--
-- Not modelled: the loop over the line editor, the builtins of the parts below, completion, the
-- readers of other dialects than bash, personas, themes and telemetry; and processes, terminals and
-- signals, the databases, the plugin protocols, the key stores and the network, whose behaviour is
-- that of other systems.
pub mod Cache
pub mod Cloud
pub mod Env
pub mod History
pub mod Jobs
pub mod Parser
pub mod Prelude
pub mod Shell
pub mod Term
pub mod Translate
