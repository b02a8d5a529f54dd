-- ===== src/Lib.antt =====
-- The host-side tooling of the RS485 bridge (the repository's scripts/): the update of devices over
-- the network and over USB, the packages that it sends, and the checks of the flash layout, of the
-- project's ledger and of the gates of its milestones.
--
-- Parts and files:
--   * Ota models scripts/ota_controller.py. Ota/Manifest has `manifest_bytes` and
--     `unpack_manifest`; Ota/World the surroundings (the device behind HTTP, the clock, the state
--     file, `Client.nonce` and `Client.count`) with `write_state`; Ota/Client `class Client`;
--     Ota/Reconcile `reconcile`; Ota/Deploy `deploy`; Ota/Release `verify_signature` and
--     `load_release`. The other files below Ota hold proofs.
--   * Package models scripts/dmota_package.py: `manifest_bytes`, `unpack_manifest`,
--     `verify_header`, `verify`, `package`. It calls the functions of Ota/Manifest, as the script
--     imports the controller.
--   * Remote models scripts/dmota_remote.py: `ready` and `candidate`; Remote/Transfer `reserve`,
--     `reconcile`, `deploy` and the `reconcile` command of `main`. The state file of the world is
--     its fence.
--   * Budget models scripts/validate_memory_budget.py: Budget itself the sweep over the partitions in
--     `validate_partition_layout`, and `validate_firmware_image`; Budget/Table `parse_size` and
--     `parse_partitions`; Budget/Contract `validate_budget_contract`; Budget/Layout the whole of
--     `validate_partition_layout`, and `validate_runtime_sample`. The sweep is called from there.
--   * Ledger models `validate_ledger` of scripts/validate_project_loop.py with the functions that it
--     calls, and Ledger/Contract its `validate_contract`.
--   * Milestones models scripts/validate_milestone_gates.py: Milestones has its constants,
--     Milestones/Lines the lines of the design document, Milestones/Catalog `derive_catalog` and
--     `validate_catalog`, Milestones/Resolve `resolve_group` and what it calls, Milestones/Gate the
--     loops of `validate_repository_milestones`, and Milestones/Repository that function (its part
--     from the catalog on is `check_gates`) with the constants of scripts/target_contract.py.
--   * Usb models parts of scripts/upload_usb_bootstrap.py: Usb `identify`, Usb/Segments
--     `check_segments`, Usb/Boot `classify_boot_line` and `capture_boot`. Usb/Upgrade and
--     Usb/Upgrade/Capture model `boot_metadata`, `boot_accepted` and `capture_upgrade` of
--     scripts/upgrade_usb_bootstrap.py, the last with its parameters `metadata` and `accepted` at
--     their defaults.
--   * Documents has the tests on JSON documents that the validators share, and their loops.
--   * Strings has `str.strip` and `int(s, 0)`.
--   * Value has the JSON values of the scripts (dicts in key order, Python's `==`), Bytes the integers
--     and fields of `struct`, Patterns the regular expressions, Exec the exceptions; Exec/Action
--     has methods that change a state and may raise, and Exec/Triple the rules for what they keep.
--   * Tests runs the definitions at concrete inputs.
--
-- How the code corresponds: a method is an `Action World A`, a function from the world before it
-- to a result or an exception and the world after it, which an exception does not take back. The
-- `trace` of the world lists each request when it is sent, each decoded answer and each state
-- written. The answers, their delays and the failing writes are read from lists in the world, over
-- which the theorems quantify, so the device may answer anything. Which exceptions an `except`
-- catches is a Boolean function of the exception.
--
-- Parameters: `sha256`, `json_loads` (a function of the bytes), OpenSSL's verification
-- (`signed_by`), `datetime.fromisoformat`, `bytes.fromhex`, `json.dumps` of the catalog and of the
-- ledger's contract, and whether a path of the repository exists. `secrets.token_hex` and `urlsplit` give arguments.
--
-- Bounds: a polling loop runs on fuel, one round for each second and one for the last test of the
-- clock; each round sleeps for a second, which makes that enough. Time is in milliseconds. A number
-- in JSON is an integer: the fields that the scripts read hold no others. `pack_u32` writes a number
-- modulo 2^32, where `struct` raises: `manifest_bytes` only packs numbers that fit.
--
-- The reports of the milestone gate hold what its tests read: the counts by status and the test
-- ids, which are only printed, are left out. Of the exceptions that Python raises on a value of the
-- wrong type only the kind is kept.
--
-- `int(s, 0)` is modelled for ASCII digits, of which there may be any number. The numbers that
-- `validate_partition_layout` takes from the budget are natural numbers, which
-- `validate_budget_contract` has fixed: any other value is an error. The rows of a CSV file are given.
--
-- The reads of the port that bring data before the time is up are a list of byte strings;
-- `bytes.decode` with replacement is a parameter. The times in the redacted log are left out.
--
-- A first boot that is refused is an error, without what it wrote until then; a capture behind an
-- upgrade keeps it.
--
-- Not modelled: argument parsing and printing, the files that OpenSSL reads, file modes beyond
-- "owner-only", the other checks of the repository's own documents, and the firmware (firmware/),
-- which is C++ and is the other side of the requests that are made here.
pub mod Prelude
pub mod Bytes
pub mod Value
pub mod Documents
pub mod Strings
pub mod Exec
pub mod Patterns
pub mod Ota
pub mod Package
pub mod Tests
pub mod Remote
pub mod Budget
pub mod Ledger
pub mod Milestones
pub mod Usb
