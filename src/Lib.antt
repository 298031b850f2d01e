-- ===== src/Lib.antt =====
-- A model of the compliance evaluator of this repository: the Python package tools/nobytes_cca, which
-- judges facts that Ansible collected from a host against controls of the Information Security
-- Manual.
--
-- How the parts interact. A check (registry.py) binds controls and names its evaluator and the facts
-- that it needs. A run (evaluate.py) takes the checks of a registry that apply to a subject, guards
-- each one, calls the evaluator on a bundle of facts, and turns an exception into an error. An
-- evaluator (checks/) returns a result of the vocabulary that contract.py defines, or raises. What is
-- not determined is listed with a reason.
--
-- Which file models which part (paths of the source from tools/nobytes_cca):
--   Prelude            tests, lists and integers over native numbers
--   Py                 the Python that the program uses: texts, the values of a JSON or YAML
--                      document, exceptions as results, access to values, dates
--   Contract           contract.py: `Terms` the enumerations, `Verdict` the results, `Bundle` the
--                      facts, bundles and histories; `Evidence` and `Guards` hold proofs
--   Catalog            catalog.py: the index of the manual and its baselines; its child modules hold
--                      proofs
--   Registry           registry.py: `Check`, `Check.resolve`, `Registry.__iter__` and its sets of
--                      controls; `Registry/Loading` has `Registry.load`, `Registry/Validation` has
--                      `validate`, and the other files hold proofs
--   Evaluate           evaluate.py: `evaluate_check`, `evaluate_bundle`; `Evaluate/Coverage` has
--                      `unassessed_controls` and `coverage_summary`; the other files hold proofs
--   Eol                eol.py: `lookup` (here `lookup_support`) and its steps
--   Checks/OsSupport   checks/common/os_support.py
--   Checks/OsState     checks/windows/os_state.py
--   Checks/Office      checks/windows/office.py: `Guard` the shared guard, `InternetMacros` ism-1488
--   Checks/AppControl  checks/windows/appcontrol.py: `State` the readings of the fact
--   Checks/AppControlPaths  checks/windows/appcontrol_paths.py: `Paths` and `Rules` its functions, `Reads`
--                      and `Details` parts of the evaluator; the other files hold proofs
--   Checks/AppSupport  checks/windows/app_support.py: `Products` the patterns of its products; the
--                      other files hold proofs
--   Checks/Browsers    checks/windows/browsers.py: `Inventory` what is shared, `Ads` ism-1485, `Java`
--                      ism-1486, `Locked` ism-1585; the other files hold proofs
--   Redact             collections/ansible_collections/nobytes/compliance/plugins/filter/redact.py (from
--                      the repository's root): `redact_facts`; `Redact/Sid` the shape of a SID;
--                      the other files hold proofs
--   PsObject           plugins/filter/ps_object.py beside it: `ps_object`
--   Examples           concrete hosts, and the theorems at them
--
-- State and operations. The program keeps no state but its documents, so every operation is a
-- function of its inputs. A dict is a list of pairs, where the first pair of a key counts; a set is a
-- list without repetition, which the program sorts before it shows or walks it. An operation that can
-- raise returns a `Result`; the order of reads, and so which exception is first, is that of the
-- source. Every recursion is structural, on a list, a text or a value, so no fuel is used.
--
-- Parameters. `import_function` imports a module and looks a function up in it, with none for what is
-- no callable; `load` is the reading of a file of the end-of-life data set; `sha256_hex` is SHA-256 in
-- hexadecimal; and `json_loads` parses a text as JSON or raises a ValueError. Nothing is assumed of
-- them.
--
-- Bounds. Numbers in documents are integers. Letter case, white space and digits are those of
-- ASCII, also where a regular expression takes others, as the one for the shape of a SID does. A
-- moment is a count of microseconds in UTC. `date.fromisoformat` reads YYYY-MM-DD only. `repr` of a
-- text does not escape quotes or unprintable characters. The id of a control in the manual is a
-- text, and a registry file has the types that checks/schema.json declares; another type raises.
--
-- Not modelled: the evaluators of checks/entra; bundle.py, lab/, oscal/, report/ and generate/, which
-- read and build documents; cli.py and paths.py, which are input and output; the scripts in tools/; and
-- the Ansible roles in collections/, whose facts are the inputs of the model.
pub mod Prelude
pub mod Py
pub mod Contract
pub mod Catalog
pub mod Registry
pub mod Evaluate
pub mod Eol
pub mod Checks
pub mod Redact
pub mod Examples
pub mod PsObject
