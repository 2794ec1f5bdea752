-- ===== src/Lib.antt =====
-- The Alibaba Cloud CLI (aliyun-cli, Go): how a command line is taken apart and which command it
-- reaches, the safety policy that may stop the command, the profiles that say as whom it runs, the
-- mock records that may answer in the place of a service, the calls that are repeated, the runtime
-- that makes calls from metadata, and the installation of plugins.
--
-- The parts, and the files that model them. The names of definitions are those of the Go code in
-- snake_case; a comment at each names the Go function where it differs.
-- - Cli/Flag, Cli/Field (cli/flag.go, cli/flag_field.go): a flag and its fields. Flags are objects
--   that several flag sets share, so they live in a heap, a list, and a pointer is an index.
-- - Cli/FlagSet (cli/flag_set.go): the flags of a command and the index from the spellings of a
--   flag (`--name`, `--alias`, `-n`) to the flag.
-- - Cli/Context (cli/context.go): the flags in force, the unknown flags and the current command;
--   entering a command merges its flags with the persistent ones of the commands above.
-- - Cli/Parser (cli/parser.go): the tokens of a command line go to flags or become arguments. A
--   method is a function of the machine, parser and session, that gives a result and a machine.
-- - Cli/Tree, Cli/Command (cli/command.go): the tree of commands, `executeInner`, completion, and
--   the help test of commands that parse their own arguments. `execute_inner` walks down the tree:
--   each round reads one argument by the parser, which asks the context what a flag is.
-- - Cli/Suggestion (cli/suggestion.go, parts of cli/command.go and cli/flag_set.go): the names
--   that are proposed for a misspelled one.
-- - Cli/Error (cli/errors.go): the errors, a constructor for each message.
-- - Safety (sysconfig/safety/policy.go, sysconfig/safety/check.go): Policy has the rules, their
--   matching, the decision and the validation; Env the environment variables by which a policy is
--   overridden and handed to a plugin; Confirm the confirmation by the user.
-- - Config (config/profile.go, config/configuration.go, config/configure_delete.go,
--   config/configure_switch.go): Profile has the validation of a profile, the recognition of its
--   mode, and how flags and the environment (util/util.go) change it; Store the profiles of a
--   configuration; AtomicWrite the replacement of its file.
-- - Mock (sysconfig/mock): the root has the record and the padding of its body (types.go); Matcher
--   and Matcher/Search compare a command line with the rule of a record, the search being
--   `matchParameterGroupsFrom` with its array of marks (matcher.go); Store is the file of the
--   records (store.go), Intercept the answer in the place of a call and the use of the record
--   (interceptor.go).
-- - Openapi: Throttling (sysconfig/throttlingretry/config.go) has how often a throttled call is
--   made again, Retry (openapi/throttling_retry.go) the loop that does so; Waiter
--   (openapi/waiter.go, `evaluateExpr` of openapi/response_utils.go) calls until a value is found.
-- - Runtime (aliyun-openapi-runtime): the root has the values of arguments and the metadata of
--   parameters (meta). Argparser (argparser/argparser.go) makes values of words, with key paths in
--   KeyPath and the fold of one flag into the arguments in Assign; Constraints and Required
--   (runtime/constraints.go, runtime/validate.go) check the arguments by the metadata; Serializer
--   (runtime/serializer.go) writes them as pairs; Pager (runtime/pager.go) collects all pages.
-- - Plugin (cli/plugin): Archive (archive.go) unpacks an archive within limits, Aliases
--   (install_validation.go, reserved.go) keeps the names of plugins apart.
-- - Base: shared helpers, namely tests, lists and texts over native numbers, results.
-- - Tests: runs at concrete input, and the theorems at concrete data.
--
-- How it is modelled. An outcome is a value, an error or a panic; what was changed before an error
-- stays changed. A fourth outcome, `timeout`, says that the fuel of a loop ran out. `read_next_arg`
-- and `read_all` are given one more than the number of tokens left, `execute_inner` one more than
-- the number of arguments; each round reads a token, so that this is enough, which is proved. A
-- string is the list of its code points; case mapping, white space and lengths are those of ASCII
-- text. A map is an association list. A regular expression of the safety policy is the list of its
-- items, a literal or `.*`. The disk of AtomicWrite is a list of files, and how each call of the
-- operating system ends is an argument.
-- The loop of the retries is given one round more than there may be retries, that of the waiter 302
-- rounds for at most 600 seconds in steps of at least two, and a key path one step more than its
-- length; that this is enough is proved. The loop of the pager ends only if the service says so; it
-- is given as many rounds as there are pages. A Go map with values of any type is the list of its
-- entries in the order of the keys, in which the code visits it. A `float64` is the text that it is
-- printed as, and `math.Ceil` of a quotient that of numbers below 2^53. JSON, regular expressions,
-- rational numbers, jmespath, the clock, `filepath` and the services are parameters: records of
-- functions, which the theorems take as arguments. Where a statement needs more of `filepath`, its
-- documented laws (a path joined to an absolute one is absolute, a clean absolute path has no `..`)
-- are a hypothesis. The removal of a file in Archive may fail, as the code ignores its error.
--
-- What is not modelled. The texts of messages and helps, the writers and the translations; plain
-- getters and setters; the hook `Validate` of a flag. The callbacks `Run`, `Help` and
-- `AutoComplete` are the program's leaves: which one is called, on which command and with which
-- arguments, is the result. With `DisablePersistentFlags` the code uses the command's own flag set
-- itself; here a command is entered once, so that the sharing does not show. The edit distance
-- (cli/levenshtein.go, a copied library) is a parameter. The credentials library, the network, the
-- download of plugins, their start and their zip archives, the upgrade, the invocation of products by
-- the SDK (openapi/commando.go) and the wrappers of other programs are left out, and of the runtime
-- the reserved flags, the files of metadata, signing and the building of requests.
pub mod Base
pub mod Cli
pub mod Safety
pub mod Config
pub mod Mock
pub mod Openapi
pub mod Runtime
pub mod Plugin
pub mod Tests
