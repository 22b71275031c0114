-- ===== src/Lib.antt =====
-- Verification of jenkins-bench, a scanner that audits a Jenkins controller against a benchmark.
--
-- A scan reads the configuration (internal/config), fetches a snapshot of the controller
-- (internal/ci/jenkins), evaluates the controls of the policy bundle (internal/checks) against it
-- (internal/engine), prints a report, and ends with an exit code that CI acts on (internal/cli). The
-- files here follow those parts:
--
-- - Checks: internal/checks/registry.go. `weight`, `validate`, `less_cisid`, `less_check` are Weight,
--   Check.validate, LessCISID, lessCheck; Checks/Load has `load_from` for loadFrom, a fold over the
--   entries of the directory walk with the bundle and the map of seen IDs as its state.
-- - Config: internal/config/config.go. `validate`, `validate_exception`, `selects`, `expires_at`;
--   Config/Load has `load_with_overrides` (LoadWithOverrides) with `override_document` and
--   `apply_override` (applyOverride), and `discover` (Discover of internal/config/discover.go). The
--   YAML decoder, the file system and the environment are parameters there.
-- - Ci: the records of internal/ci/snapshot.go. A map `Available` is its keys as Boolean fields.
-- - Engine: internal/engine. Engine/Selection has `new` (New) and `validate_selection`; Engine/Evaluate
--   has `evaluate` (Evaluate), `evaluate_one`, `decode_result`, and Engine/Evaluate/Workers the worker
--   pool of evaluateJobs as a step relation over the sender, the channel and the workers;
--   Engine/Exceptions has `apply_exceptions`; Engine/Score has `compute` (Compute).
-- - Cli/Exit: `exit_status`, `failure_summary` and `exit_code` of internal/cli/scan.go and exit.go.
-- - Jenkins: internal/ci/jenkins. Jenkins/Walk has `list_jobs` (listJobs) over a record of what was
--   listed, given up and found; Jenkins/Triggers `assess_triggers`; Jenkins/JobConfig `apply_config`,
--   `place_job` and `definition_from`; Jenkins/Credentials `fetch_credentials`; Jenkins/Client `raw`,
--   `probe` (ProbeAnonymous) and `check_redirect`; Jenkins/Jobs `enumerate` and `fetch_jobs` (fetchJobs);
--   Jenkins/Urls `strip_credentials`. Cli/Exit/Complete joins the fetch, the evaluation and the exit code.
-- - Console: internal/console. Console/Wrap has `wrap` (Wrap), Console/Paint colours and tags, Console/Table
--   `render_table` (RenderTable) as the list of the lines printed, over Console/Table/Widths, where
--   `fit_slots` is columnWidths behind its measuring, and Console/Table/Layout, the lines of a cell.
-- - Report: internal/report. Report/Lines has `finding_lines` (writeFindingLines) over the groups of
--   Report/Groups; Report/Details the filters of --details; Report/Tally and Report/Remedies the
--   resources and controls that table.go lists; Report/Sections, Report/Rules, Report/Prose and
--   Report/Summary the blocks that `write_table` (writeTable) of Report/Table puts together; Report/Junit
--   has `write_junit` (writeJUnit of junit.go) up to the encoding.
-- - Prelude: texts as lists of code points, the sort, association lists, results, and the functions
--   of Go's standard library that the source calls (path.Match, time.Parse, strings.EqualFold).
-- - Examples: tests, and instances of the theorems at concrete inputs.
--
-- What is not under the repository enters as a parameter: OPA's compiling, encoding and evaluation,
-- the HTTP answers of the controller, net/url's reading and printing of a URL, the end of the context, random jitter, the JSON decoder of the metadata, the printing of a JSON
-- value, and sort.SliceStable where the source calls it with a relation that is no order.
-- Go's sort.Slice is a stable insertion sort, which gives one of the results that it may give.
-- strings.ToLower is exact on Latin up to Extended-A, Greek and Cyrillic without their extensions.
--
-- Recursion is structural everywhere. The folder walk recurses on the folder levels that it may still
-- enter: 64, the constant of the source, where the source too stops and records the container. The
-- client recurses on the retries left. The shaving of columns has as much fuel as the columns are wide, since
-- a round takes one off; the breaking of a word as much as it is long.
-- Counts are natural numbers; a configured threshold is a signed one; the components of a benchmark
-- number wrap as Go's 64-bit int does.
--
-- Not modelled: the transport, the rest of the fetcher, SARIF and JSON reports, the
-- command line's wiring, and the wording of messages. XML, YAML and JSON decoding are libraries'.
pub mod Prelude
pub mod Checks
pub mod Engine
pub mod Cli
pub mod Jenkins
pub mod Console
pub mod Report
pub mod Examples
pub mod Config
pub mod Ci
