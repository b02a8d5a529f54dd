-- ===== src/Milestones.antt =====
-- scripts/validate_milestone_gates.py: its constants and the criteria of the catalog.
pub mod Lines
pub mod Catalog
pub mod Resolve
pub mod Gate
pub mod Repository
pub mod Accepted
use dm_d5102q_rs485_bridge.Prelude.{ℕ, Text, text, List, [], ◌∷◌}

pub record Criterion : Type 0 where
  pub id : Text
  pub group : Text
  pub kind : Text
  pub content : Text
  pub source_line : ℕ
  pub text_sha256 : Text

-- `MILESTONE_IDS`
unfoldable pub milestone_ids : List Text
milestone_ids =
    text "M0"
    ∷ text "M1"
    ∷ text "M2"
    ∷ text "M3"
    ∷ text "M4"
    ∷ text "M5"
    ∷ text "M6"
    ∷ text "M7"
    ∷ text "M8"
    ∷ text "M9"
    ∷ []

-- One entry of `GROUP_SPECS`
pub record GroupSpec : Type 0 where
  pub group : Text
  pub section : Text
  pub prefix : Text
  pub expected : ℕ

abbrev spec : Text → Text → Text → ℕ → GroupSpec
spec group section prefix expected = record {
  group = group;
  section = section;
  prefix = prefix;
  expected = expected;
}

-- `GROUP_SPECS`
unfoldable pub group_specs : List GroupSpec
group_specs =
    spec (text "host-tests") (text "16.1") (text "HT") 8
    ∷ spec (text "hardware-tests") (text "16.2") (text "HI") 12
    ∷ spec (text "field-tests") (text "16.3") (text "FT") 6
    ∷ spec (text "quantitative-acceptance") (text "16.4") (text "QA") 11
    ∷ spec (text "release-definition") (text "20") (text "RD") 11
    ∷ spec (text "implementation-checklist") (text "21") (text "IC") 10
    ∷ []

-- One entry of `EXPECTED_MILESTONE_COUNTS`
pub record Counts : Type 0 where
  pub tasks : ℕ
  pub deliverables : ℕ
  pub exits : ℕ
  pub stops : ℕ

abbrev counts : ℕ → ℕ → ℕ → ℕ → Counts
counts t d e s = record { tasks = t; deliverables = d; exits = e; stops = s }

-- `EXPECTED_MILESTONE_COUNTS`
unfoldable pub expected_counts : List (Text × Counts)
expected_counts =
    (text "M0", counts 7 5 4 1)
    ∷ (text "M1", counts 6 4 4 1)
    ∷ (text "M2", counts 6 4 4 1)
    ∷ (text "M3", counts 6 2 4 1)
    ∷ (text "M4", counts 6 3 4 1)
    ∷ (text "M5", counts 6 3 5 1)
    ∷ (text "M6", counts 6 3 4 1)
    ∷ (text "M7", counts 5 3 5 1)
    ∷ (text "M8", counts 7 3 5 1)
    ∷ (text "M9", counts 6 4 5 1)
    ∷ []

-- `EXPECTED_TOTAL`
abbrev pub expected_total : ℕ
expected_total = 207

-- `ALLOWED_PROOF_STAGES`
unfoldable pub allowed_proof_stages : List Text
allowed_proof_stages =
    text "host"
    ∷ text "host-browser"
    ∷ text "host-system"
    ∷ text "host-then-hardware"
    ∷ text "host-then-target"
    ∷ text "hardware"
    ∷ text "system"
    ∷ text "target-deployment"
    ∷ text "deployment"
    ∷ []

-- `PHYSICAL_PROOF_STAGES`
unfoldable pub physical_proof_stages : List Text
physical_proof_stages =
    text "host-system"
    ∷ text "host-then-hardware"
    ∷ text "host-then-target"
    ∷ text "hardware"
    ∷ text "system"
    ∷ text "target-deployment"
    ∷ text "deployment"
    ∷ []

-- `CRITERION_STATUSES`
unfoldable pub criterion_statuses : List Text
criterion_statuses =
    text "satisfied"
    ∷ text "blocked"
    ∷ text "registered"
    ∷ text "not-started"
    ∷ text "not-evaluated"
    ∷ text "open"
    ∷ []

-- `STOP_STATUSES`
unfoldable pub stop_statuses : List Text
stop_statuses = text "clear" ∷ text "triggered" ∷ text "not-evaluated" ∷ []

-- `MILESTONE_STATUSES`
unfoldable pub milestone_statuses : List Text
milestone_statuses =
    text "blocked" ∷ text "not-started" ∷ text "in-progress" ∷ text "satisfied" ∷ []

-- `ALLOWED_OVERRIDE_FIELDS`
unfoldable pub allowed_override_fields : List Text
allowed_override_fields =
    text "status"
    ∷ text "proofStage"
    ∷ text "evidenceIds"
    ∷ text "artifactPaths"
    ∷ text "blocker"
    ∷ text "note"
    ∷ []
